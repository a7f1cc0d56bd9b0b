-- ===== src/Tlv/Raw.antt =====
-- crates/teap/src/tlv/raw.rs: the generic frame `M|R|Type(14) | Length(16) | Value`.
-- A slice or `Vec<u8>` is a list of numbers below 256. Offsets into one buffer stay below
-- `isize::MAX + 2^17`, so their saturating additions never saturate and are plain additions here.
pub mod Frame
pub mod RoundTrip
pub mod Sound
use usg_supplicant.Common.{
  ℕ, zero, suc, ◌+◌, ◌-◌, ◌*◌, bit_and, bit_or, Bool, true, false, not, List, [], ◌∷◌, ◌++◌, Option,
  none, some, Result, ok, err, ◌>>=◌, ◌>>◌, guard, ok_or, and_then, length, get_range, leb, ◌==◌,
  if◌then◌else◌,
}
use usg_supplicant.Common.Bytes.{u16_be}
use usg_supplicant.Tlv.Error.{
  TlvError, truncated_header, truncated_value, reserved_type, value_too_long, type_out_of_range,
  too_many_tlvs,
}

abbrev pub header_len : ℕ
header_len = 4

abbrev pub mandatory_bit : ℕ
mandatory_bit = 0x8000

abbrev pub type_mask : ℕ
type_mask = 0x3fff

abbrev pub max_tlvs : ℕ
max_tlvs = 4096

pub record RawTlv : Type 0 where
  pub mandatory : Bool
  pub tlv_type : ℕ  -- u16
  pub value : List ℕ

abbrev pub new : Bool → ℕ → List ℕ → RawTlv
new mandatory tlv_type value = record { mandatory = mandatory; tlv_type = tlv_type; value = value }

-- The flags and the type in one word; `!TYPE_MASK` on a `u16` is 0xc000.
abbrev pub type_word : RawTlv → ℕ
type_word t =
    let word = bit_and t.tlv_type type_mask in
    if t.mandatory then bit_or word mandatory_bit else word

-- `out` is the buffer that is appended to.
unfoldable pub encode_into : RawTlv → List ℕ → Result TlvError (List ℕ)
encode_into t out = do
  guard (not (t.tlv_type == 0)) reserved_type
  guard (bit_and t.tlv_type 0xc000 == 0) (type_out_of_range t.tlv_type)
  guard (leb (length t.value) 65535) (value_too_long t.tlv_type (length t.value))
  ok (out ++ (u16_be (type_word t) ++ (u16_be (length t.value) ++ t.value)))

unfoldable pub encode : RawTlv → Result TlvError (List ℕ)
encode t = encode_into t []

pub record TlvReader : Type 0 where
  pub buf : List ℕ
  pub pos : ℕ

abbrev pub new_reader : List ℕ → TlvReader
new_reader buf = record { buf = buf; pos = 0 }

abbrev pub remaining : TlvReader → ℕ
remaining r = length r.buf - r.pos

abbrev pub reader_is_empty : TlvReader → Bool
reader_is_empty r = leb (length r.buf) r.pos

-- `<[u8; 4]>::try_from`
abbrev pub array_4 : List ℕ → Option (ℕ × ℕ × ℕ × ℕ)
array_4 (a ∷ b ∷ c ∷ d ∷ []) = some (a, b, c, d)
array_4 _ = none

-- The part of `next_tlv` behind the header's four octets.
unfoldable pub next_value : TlvReader → ℕ → ℕ → Result TlvError (RawTlv × TlvReader)
next_value r word declared = do
  let tlv_type = bit_and word type_mask
  let value_start = r.pos + header_len
  let value_end = value_start + declared
  guard (not (tlv_type == 0)) reserved_type
  value ←
      ok_or (get_range value_start value_end r.buf)
        (truncated_value tlv_type declared (length r.buf - value_start))
  ok (new (not (bit_and word mandatory_bit == 0)) tlv_type value, record r { pos = value_end })

unfoldable pub next_tlv : TlvReader → Result TlvError (RawTlv × TlvReader)
next_tlv r = do
  (b0, b1, b2, b3) ←
      ok_or (and_then (get_range r.pos (r.pos + header_len) r.buf) array_4)
        (truncated_header r.pos (remaining r))
  next_value r (b0 * 256 + b1) (b2 * 256 + b3)

-- The `while` loop of `parse_all`. The first argument is `MAX_TLVS - tlvs.len()`: the loop fails
-- where it is 0, which is the test `tlvs.len() >= MAX_TLVS`.
unfoldable pub parse_loop : ℕ → TlvReader → List RawTlv → Result TlvError (List RawTlv)
parse_loop zero r tlvs = if reader_is_empty r then ok tlvs else err (too_many_tlvs max_tlvs)
parse_loop (suc left) r tlvs = elim (reader_is_empty r) [
  | true ↦ ok tlvs
  | false ↦ next_tlv r >>= λ p. parse_loop left p.1 (tlvs ++ p.0 ∷ [])
]

unfoldable pub parse_all : List ℕ → Result TlvError (List RawTlv)
parse_all buf = parse_loop max_tlvs (new_reader buf) []

-- The loop of `encode_all`, and of the enclosed TLVs in the typed bodies.
unfoldable pub encode_each : List RawTlv → List ℕ → Result TlvError (List ℕ)
encode_each [] out = ok out
encode_each (t ∷ ts) out = do out' ← encode_into t out; encode_each ts out'

unfoldable pub encode_all : List RawTlv → Result TlvError (List ℕ)
encode_all tlvs = encode_each tlvs []
