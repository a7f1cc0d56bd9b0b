-- ===== src/Status/RoundTrip.antt =====
-- crates/usg-status/src/lib.rs: `decode` on what `encode` writes.
use usg_supplicant.Common.{
  ℕ, ◌≤◌, Bool, true, false, ◌&&◌, List, [], ◌∷◌, ◌++◌, some, ◌==◌, ◌||◌, max_64, ◌≡◌, refl, ap,
  ◌∙◌, if◌then◌else◌,
}
use usg_supplicant.Common.Lines.{
  newline, carriage_return, same, is_plain, lines, lines-plain, split_once,
}
use usg_supplicant.Common.Decimal
use usg_supplicant.Common.Decimal.{parse_u64-decimal, digits-plain}
use usg_supplicant.Status
use usg_supplicant.Status.{
  AuthState, Identity, AuthStatus, one_line, flat, fields, joined, encode, decode,
}

flat-plain : (c : ℕ) → (flat c == newline || flat c == carriage_return) ≡ false
flat-plain c = at_char (c == newline) (c == carriage_return) refl refl
  where
    at_char :
        (a b : Bool)
        → (c == newline) ≡ a
        → (c == carriage_return) ≡ b
        → ((if a || b then 32 else c) == newline || (if a || b then 32 else c) == carriage_return)
          ≡ false
    at_char true b e f = refl
    at_char false true e f = refl
    at_char false false e f = rw (e, f) refl

pub one_line-plain : (s : List ℕ) → is_plain (one_line s) ≡ true
unfolding is_plain one_line
one_line-plain [] = refl
one_line-plain (c ∷ cs) = rw (flat-plain c, one_line-plain cs) refl

-- The lines of plain lines that are joined are these.
pub all_plain : List (List ℕ) → Bool
all_plain [] = true
all_plain (l ∷ ls) = is_plain l && all_plain ls

lines-joined : (ls : List (List ℕ)) → all_plain ls ≡ true → lines (joined ls) ≡ ls
unfolding joined lines all_plain
lines-joined [] h = refl
lines-joined (l ∷ ls) h = at_line (is_plain l) refl h (λ k. lines-joined ls k)
  where
    at_line :
        (b : Bool)
        → is_plain l ≡ b
        → (b && all_plain ls) ≡ true
        → (all_plain ls ≡ true → lines (joined ls) ≡ ls)
        → lines (l ++ newline ∷ joined ls) ≡ l ∷ ls
    at_line true e h more = lines-plain l (joined ls) e ∙ ap (λ k. l ∷ k) (more h)
    at_line false e h more = let no : ⊥ = cc h in elim no [ ]

state_token-plain : (s : AuthState) → is_plain (Status.state_token s) ≡ true
unfolding is_plain Status.state_token
state_token-plain AuthState.idle = refl
state_token-plain AuthState.connecting = refl
state_token-plain AuthState.outer_established = refl
state_token-plain AuthState.inner_in_progress = refl
state_token-plain AuthState.authenticated = refl
state_token-plain AuthState.failed = refl

identity_token-plain : (i : Identity) → is_plain (Status.identity_token i) ≡ true
unfolding is_plain Status.identity_token
identity_token-plain Identity.machine = refl
identity_token-plain Identity.user = refl

state_from_token-state_token :
    (s : AuthState) → Status.state_from_token (Status.state_token s) ≡ some s
unfolding Status.state_from_token Status.state_token same
state_from_token-state_token AuthState.idle = refl
state_from_token-state_token AuthState.connecting = refl
state_from_token-state_token AuthState.outer_established = refl
state_from_token-state_token AuthState.inner_in_progress = refl
state_from_token-state_token AuthState.authenticated = refl
state_from_token-state_token AuthState.failed = refl

identity_from_token-identity_token :
    (i : Identity) → Status.identity_from_token (Status.identity_token i) ≡ some i
unfolding Status.identity_from_token Status.identity_token same
identity_from_token-identity_token Identity.machine = refl
identity_from_token-identity_token Identity.user = refl

-- The status with every text on one line.
abbrev pub flattened : AuthStatus → AuthStatus
flattened s = record s {
  cert_subject = one_line s.cert_subject;
  machine_cert = one_line s.machine_cert;
  user_cert = one_line s.user_cert;
  machine_thumbprint = one_line s.machine_thumbprint;
  user_thumbprint = one_line s.user_thumbprint;
  server_name = one_line s.server_name;
  detail = one_line s.detail;
}

fields-plain : (s : AuthStatus) → all_plain (fields s) ≡ true
unfolding all_plain is_plain
fields-plain s =
    rw
      (
        state_token-plain s.state,
        identity_token-plain s.identity,
        one_line-plain s.cert_subject,
        one_line-plain s.machine_cert,
        one_line-plain s.user_cert,
        one_line-plain s.machine_thumbprint,
        one_line-plain s.user_thumbprint,
        one_line-plain s.server_name,
        one_line-plain s.detail,
        digits-plain 20 s.updated_unix,
      )
      refl

read-fields :
    (s : AuthStatus)
    → (Status.read_lines (fields s) Status.blank) ≡ record {
      state = Status.state_from_token (Status.state_token s.state);
      identity = Status.identity_from_token (Status.identity_token s.identity);
      cert_subject = one_line s.cert_subject;
      machine_cert = one_line s.machine_cert;
      user_cert = one_line s.user_cert;
      machine_thumbprint = one_line s.machine_thumbprint;
      user_thumbprint = one_line s.user_thumbprint;
      server_name = one_line s.server_name;
      detail = one_line s.detail;
      updated_unix = Status.unwrap_or 0 (Decimal.parse_u64 (Decimal.decimal s.updated_unix));
    }
unfolding Status.read_lines Status.assign split_once same
read-fields s = refl

-- A status whose time is of 64 bits is encoded and read back, with the newlines of its texts as
-- spaces.
pub AuthStatus_round_trip :
    (s : AuthStatus) → s.updated_unix ≤ max_64 → decode (encode s) ≡ some (flattened s)
unfolding decode encode
AuthStatus_round_trip s h =
    rw
      (
        lines-joined (fields s) (fields-plain s),
        read-fields s,
        state_from_token-state_token s.state,
        identity_from_token-identity_token s.identity,
        parse_u64-decimal s.updated_unix h,
      )
      refl
