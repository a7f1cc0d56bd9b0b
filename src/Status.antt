-- ===== src/Status.antt =====
-- crates/usg-status/src/lib.rs: the status that the peer method publishes, and its text form.
pub mod RoundTrip
use usg_supplicant.Common.{
  ℕ, Bool, true, false, List, [], ◌∷◌, ◌++◌, Option, none, some, if◌then◌else◌, ◌==◌, ◌||◌,
}
use usg_supplicant.Common.Text.{octets}
use usg_supplicant.Common.Lines.{newline, carriage_return, same, lines, split_once}
use usg_supplicant.Common.Decimal.{decimal, parse_u64}

pub data AuthState : Type 0 where
  idle connecting outer_established inner_in_progress authenticated failed : AuthState

pub data Identity : Type 0 where
  machine user : Identity

-- Strings are lists of characters.
pub record AuthStatus : Type 0 where
  pub state : AuthState
  pub identity : Identity
  pub cert_subject : List ℕ
  pub machine_cert : List ℕ
  pub user_cert : List ℕ
  pub machine_thumbprint : List ℕ
  pub user_thumbprint : List ℕ
  pub server_name : List ℕ
  pub detail : List ℕ
  pub updated_unix : ℕ

-- `AuthState::as_token` and `AuthState::from_token`.
unfoldable pub state_token : AuthState → List ℕ
state_token AuthState.idle = octets "idle"
state_token AuthState.connecting = octets "connecting"
state_token AuthState.outer_established = octets "outer-established"
state_token AuthState.inner_in_progress = octets "inner-in-progress"
state_token AuthState.authenticated = octets "authenticated"
state_token AuthState.failed = octets "failed"

unfoldable pub state_from_token : List ℕ → Option AuthState
state_from_token s =
    if same s (octets "idle")
    then some AuthState.idle
    else if same s (octets "connecting")
    then some AuthState.connecting
    else if same s (octets "outer-established")
    then some AuthState.outer_established
    else if same s (octets "inner-in-progress")
    then some AuthState.inner_in_progress
    else if same s (octets "authenticated")
    then some AuthState.authenticated
    else if same s (octets "failed")
    then some AuthState.failed
    else none

-- `Identity::as_token` and `Identity::from_token`.
unfoldable pub identity_token : Identity → List ℕ
identity_token Identity.machine = octets "machine"
identity_token Identity.user = octets "user"

unfoldable pub identity_from_token : List ℕ → Option Identity
identity_from_token s =
    if same s (octets "machine")
    then some Identity.machine
    else if same s (octets "user")
    then some Identity.user
    else none

abbrev pub flat : ℕ → ℕ
flat c = if c == newline || c == carriage_return then 32 else c

unfoldable pub one_line : List ℕ → List ℕ
one_line [] = []
one_line (c ∷ cs) = flat c ∷ one_line cs

abbrev equals : ℕ
equals = 61

abbrev pub key_value : List ℕ → List ℕ → List ℕ
key_value key value = key ++ equals ∷ value

-- The lines that the format string of `encode` writes.
abbrev pub fields : AuthStatus → List (List ℕ)
fields s =
    octets "version=1"
    ∷ key_value (octets "state") (state_token s.state)
    ∷ key_value (octets "identity") (identity_token s.identity)
    ∷ key_value (octets "cert_subject") (one_line s.cert_subject)
    ∷ key_value (octets "machine_cert") (one_line s.machine_cert)
    ∷ key_value (octets "user_cert") (one_line s.user_cert)
    ∷ key_value (octets "machine_thumbprint") (one_line s.machine_thumbprint)
    ∷ key_value (octets "user_thumbprint") (one_line s.user_thumbprint)
    ∷ key_value (octets "server_name") (one_line s.server_name)
    ∷ key_value (octets "detail") (one_line s.detail)
    ∷ key_value (octets "updated_unix") (decimal s.updated_unix)
    ∷ []

unfoldable pub joined : List (List ℕ) → List ℕ
joined [] = []
joined (l ∷ ls) = l ++ newline ∷ joined ls

unfoldable pub encode : AuthStatus → List ℕ
encode s = joined (fields s)

-- The variables of `decode`.
pub record Draft : Type 0 where
  pub state : Option AuthState
  pub identity : Option Identity
  pub cert_subject : List ℕ
  pub machine_cert : List ℕ
  pub user_cert : List ℕ
  pub machine_thumbprint : List ℕ
  pub user_thumbprint : List ℕ
  pub server_name : List ℕ
  pub detail : List ℕ
  pub updated_unix : ℕ

abbrev pub blank : Draft
blank = record {
  state = none;
  identity = none;
  cert_subject = [];
  machine_cert = [];
  user_cert = [];
  machine_thumbprint = [];
  user_thumbprint = [];
  server_name = [];
  detail = [];
  updated_unix = 0;
}

abbrev pub unwrap_or : ℕ → Option ℕ → ℕ
unwrap_or d none = d
unwrap_or d (some n) = n

-- `match key`.
unfoldable pub assign : (key value : List ℕ) → Draft → Draft
assign key value d =
    if same key (octets "state")
    then record d { state = state_from_token value }
    else if same key (octets "identity")
    then record d { identity = identity_from_token value }
    else if same key (octets "cert_subject")
    then record d { cert_subject = value }
    else if same key (octets "machine_cert")
    then record d { machine_cert = value }
    else if same key (octets "user_cert")
    then record d { user_cert = value }
    else if same key (octets "machine_thumbprint")
    then record d { machine_thumbprint = value }
    else if same key (octets "user_thumbprint")
    then record d { user_thumbprint = value }
    else if same key (octets "server_name")
    then record d { server_name = value }
    else if same key (octets "detail")
    then record d { detail = value }
    else if same key (octets "updated_unix")
    then record d { updated_unix = unwrap_or 0 (parse_u64 value) }
    else d

abbrev pub assign_split : Option (List ℕ × List ℕ) → Draft → Draft
assign_split none d = d
assign_split (some (key, value)) d = assign key value d

-- One round of the loop over the lines.
abbrev pub read_line : List ℕ → Draft → Draft
read_line line d = assign_split (split_once equals line) d

unfoldable pub read_lines : List (List ℕ) → Draft → Draft
read_lines [] d = d
read_lines (line ∷ ls) d = read_lines ls (read_line line d)

abbrev pub finished : Option AuthState → Option Identity → Draft → Option AuthStatus
finished (some state) (some identity) d = some (record {
  state = state;
  identity = identity;
  cert_subject = d.cert_subject;
  machine_cert = d.machine_cert;
  user_cert = d.user_cert;
  machine_thumbprint = d.machine_thumbprint;
  user_thumbprint = d.user_thumbprint;
  server_name = d.server_name;
  detail = d.detail;
  updated_unix = d.updated_unix;
})
finished _ _ d = none

unfoldable pub decode : List ℕ → Option AuthStatus
decode text = let d = read_lines (lines text) blank in finished d.state d.identity d
