-- ===== src/Eaphost/Config.antt =====
-- crates/eaphost/src/config.rs: the connection data of a profile and its octets. Strings are their
-- octets; `utf8` is the test of `core::str::from_utf8`.
pub mod Reads
pub mod RoundTrip
use usg_supplicant.Common.{
  ℕ, zero, suc, ◌+◌, Bool, true, false, not, List, [], ◌∷◌, ◌++◌, Option, none, some, Result, ok,
  err, ok_or, and_then, first, length, leb, ltb, ◌==◌, if◌then◌else◌, get_range, bit_and, max_64,
}
use usg_supplicant.Common.Text.{octets}
use usg_supplicant.Common.Bytes.{u32_le, u32_from_le}
use usg_supplicant.Common.Exec.{Exec, lift, pure, fail, ◌>>=◌, ◌>>◌}
use usg_supplicant.Pac.{same}

abbrev pub magic : List ℕ
magic = octets "USGT"

abbrev pub version : ℕ
version = 1

abbrev pub flag_machine : ℕ
flag_machine = 1

pub data ConfigError : Type 0 where
  bad_magic bad_version truncated bad_utf8 trailing_data : ConfigError

pub record SessionConfigBlob : Type 0 where
  pub machine : Bool
  pub server_name : List ℕ
  pub mat_vendor_id : ℕ
  pub max_fragment : ℕ
  pub selector_subject : List ℕ
  pub roots : List (List ℕ)
  pub mat : Option (List ℕ)

-- `u32::try_from(n).unwrap_or(u32::MAX)`
abbrev pub clamp_u32 : ℕ → ℕ
clamp_u32 n = if ltb n 4294967296 then n else 4294967295

abbrev pub put_bytes : List ℕ → List ℕ
put_bytes b = u32_le (clamp_u32 (length b)) ++ b

unfoldable pub put_roots : List (List ℕ) → List ℕ
put_roots [] = []
put_roots (der ∷ roots) = put_bytes der ++ put_roots roots

abbrev pub put_mat : Option (List ℕ) → List ℕ
put_mat none = 0 ∷ []
put_mat (some mat) = 1 ∷ put_bytes mat

abbrev pub flags_of : Bool → ℕ
flags_of machine = if machine then flag_machine else 0

unfoldable pub to_bytes : SessionConfigBlob → List ℕ
to_bytes c =
    magic
    ++ (version
        ∷ flags_of c.machine
        ∷ (u32_le c.mat_vendor_id
            ++ (u32_le c.max_fragment
                ++ (put_bytes c.server_name
                    ++ (put_bytes c.selector_subject
                        ++ (u32_le (clamp_u32 (length c.roots))
                            ++ (put_roots c.roots ++ put_mat c.mat)))))))

pub record Reader : Type 0 where
  pub b : List ℕ
  pub pos : ℕ

-- `checked_add` of `usize`.
abbrev pub checked_add : ℕ → ℕ → Option ℕ
checked_add a b = if leb (a + b) max_64 then some (a + b) else none

abbrev pub Act : Type 0 → Type 0
Act A = Exec ConfigError Reader A

abbrev pub advance : Option (List ℕ) → ℕ → Act (List ℕ)
advance none end r = (err ConfigError.truncated, r)
advance (some slice) end r = (ok slice, record r { pos = end })

abbrev pub take_to : Option ℕ → Act (List ℕ)
take_to none r = (err ConfigError.truncated, r)
take_to (some end) r = advance (get_range r.pos end r.b) end r

-- `Reader::take` with the `ok_or(ConfigError::Truncated)?` of its callers.
unfoldable pub take : ℕ → Act (List ℕ)
take n r = take_to (checked_add r.pos n) r

abbrev pub get : {A : Type 0} → Option A → Act A
get o = lift (ok_or o ConfigError.truncated)

unfoldable pub u8 : Act ℕ
u8 = do s ← take 1; get (first s)

unfoldable pub u32 : Act ℕ
u32 = do s ← take 4; get (u32_from_le s)

unfoldable pub bytes : Act (List ℕ)
bytes = do len ← u32; take len

abbrev pub require : Bool → ConfigError → Act (Unit {0})
require true e = pure tt
require false e = fail e

unfoldable pub read_roots : ℕ → Act (List (List ℕ))
read_roots zero = pure []
read_roots (suc n) = do der ← bytes; roots ← read_roots n; pure (der ∷ roots)

abbrev pub read_mat : ℕ → Act (Option (List ℕ))
read_mat tag = if tag == 0 then pure none else (do mat ← bytes; pure (some mat))

-- `if !r.is_empty()`, where `is_empty` is `pos >= len`.
abbrev pub at_end : Act (Unit {0})
at_end r = require (leb (length r.b) r.pos) ConfigError.trailing_data r

module _ (utf8 : List ℕ → Bool) where
  unfoldable pub string : Act (List ℕ)
  string = do raw ← bytes; require (utf8 raw) ConfigError.bad_utf8; pure raw

  unfoldable pub read : Act SessionConfigBlob
  read = do
    m ← take 4
    require (same m magic) ConfigError.bad_magic
    v ← u8
    require (v == version) ConfigError.bad_version
    flags ← u8
    mat_vendor_id ← u32
    max_fragment ← u32
    server_name ← string
    selector_subject ← string
    num_roots ← u32
    roots ← read_roots num_roots
    tag ← u8
    mat ← read_mat tag
    at_end
    pure (record {
      machine = not (bit_and flags flag_machine == 0);
      server_name = server_name;
      mat_vendor_id = mat_vendor_id;
      max_fragment = max_fragment;
      selector_subject = selector_subject;
      roots = roots;
      mat = mat;
    })

  unfoldable pub from_bytes : List ℕ → Result ConfigError SessionConfigBlob
  from_bytes b = (read (record { b = b; pos = 0 })).0
