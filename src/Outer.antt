-- ===== src/Outer.antt =====
-- crates/teap/src/outer.rs: the TEAP outer message, flags, an optional length, and data.
pub mod Framing
pub mod Reassembler
pub mod Fragment
pub mod Bounds
pub mod Pieces
pub mod Delivery
use usg_supplicant.Common.{
  ℕ, zero, suc, ◌+◌, ◌-◌, ◌*◌, ◌/◌, ◌%◌, ◌≤◌, ◌<◌, max, bit_and, bit_or, Bool, true, false, not,
  ◌&&◌, ◌||◌, List, [], ◌∷◌, ◌++◌, append-nil, append_assoc, Option, none, some, Result, ok, err,
  ◌>>=◌, ◌>>◌, guard, ok_or, and_then, unwrap_or, is_some, length, first, take, drop, replicate,
  get_range, get_from, is_empty, get_range-append, get_from-append, length-append, length-take,
  length-drop, take-append-drop, All, All-append, saturating_add, inl, inr, dec_lt, le→ltb, lt→ltb,
  leb, ltb, ◌==◌, if◌then◌else◌, ◌≡◌, ◌≢◌, ◌⊎◌, refl, sym, ap, subst, ◌∙◌, arith, le→leb, ==_iff,
  Bool-cases, Option-cases, Result-cases,
}
use usg_supplicant.Common.Bytes.{u32_be, u32_from_be}
use usg_supplicant.Tlv.Error.{TlvError, truncated_value}

abbrev pub teap_eap_type : ℕ
teap_eap_type = 55

abbrev pub teap_version : ℕ
teap_version = 1

abbrev pub flag_l : ℕ
flag_l = 0x80

abbrev pub flag_m : ℕ
flag_m = 0x40

abbrev pub flag_s : ℕ
flag_s = 0x20

abbrev pub version_mask : ℕ
version_mask = 0x07

abbrev pub tls_len_field : ℕ
tls_len_field = 4

pub record TeapOuter : Type 0 where
  pub more_fragments : Bool
  pub start : Bool
  pub version : ℕ
  pub tls_message_length : Option ℕ
  pub body : List ℕ  -- the field `data`

unfoldable pub ack : ℕ → TeapOuter
ack version = record {
  more_fragments = false;
  start = false;
  version = bit_and version version_mask;
  tls_message_length = none;
  body = [];
}

unfoldable pub is_ack : TeapOuter → Bool
is_ack o = not o.start && not o.more_fragments && is_empty o.body

-- The TLS message length, if the flag says that there is one, and the offset behind it.
unfoldable pub parse_length : Bool → List ℕ → Result TlvError (Option ℕ × ℕ)
parse_length true type_data = do
  n ←
      ok_or (and_then (get_range 1 (1 + tls_len_field) type_data) u32_from_be)
        (truncated_value teap_eap_type (1 + tls_len_field) (length type_data))
  ok (some n, 1 + tls_len_field)
parse_length false type_data = ok (none, 1)

unfoldable pub parse : List ℕ → Result TlvError TeapOuter
parse type_data = do
  flags ← ok_or (first type_data) (truncated_value teap_eap_type 1 0)
  (tls_message_length, offset) ← parse_length (not (bit_and flags flag_l == 0)) type_data
  ok (record {
    more_fragments = not (bit_and flags flag_m == 0);
    start = not (bit_and flags flag_s == 0);
    version = bit_and flags version_mask;
    tls_message_length = tls_message_length;
    body = unwrap_or (get_from offset type_data) [];
  })

-- `flags |= f` where the condition holds.
abbrev pub set_flag : Bool → ℕ → ℕ → ℕ
set_flag b f flags = if b then bit_or flags f else flags

unfoldable pub flags_of : (more start length_included : Bool) → ℕ → ℕ
flags_of more start length_included version =
    set_flag length_included flag_l
      (set_flag start flag_s (set_flag more flag_m (bit_and version version_mask)))

abbrev pub length_field : Option ℕ → List ℕ
length_field none = []
length_field (some n) = u32_be n

unfoldable pub build : TeapOuter → List ℕ
build o =
    flags_of o.more_fragments o.start (is_some o.tls_message_length) o.version
    ∷ (length_field o.tls_message_length ++ o.body)
