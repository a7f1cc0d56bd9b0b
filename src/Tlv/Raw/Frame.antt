-- ===== src/Tlv/Raw/Frame.antt =====
-- crates/teap/src/tlv/raw.rs: one frame, as `encode_into` writes it and `next_tlv` reads it.
use usg_supplicant.Common.{
  ℕ, ◌+◌, ◌*◌, ◌/◌, ◌%◌, ◌≤◌, ◌<◌, bit_and, Bool, false, not, List, [], ◌∷◌, ◌++◌, append_assoc,
  some, ok, length, length-append, get_range, get_range-append, ◌==◌, if◌then◌else◌, ◌≡◌, refl, ap,
  ◌∙◌, arith,
}
use usg_supplicant.Common.Bits.{mask_14, mask_15, mask_high_2, set_15}
use usg_supplicant.Common.Bytes.{u16_be, IsU16}
use usg_supplicant.Tlv.Raw.{RawTlv, new, type_word, encode_into, next_value, next_tlv}

-- What can be encoded: a type of 14 bits that is not 0, and a value whose length fits 16 bits.
pub record IsValid (t : RawTlv) : Type 0 where
  pub type_ne_zero : 0 < t.tlv_type
  pub type_fits : t.tlv_type < 16384
  pub value_fits : length t.value ≤ 65535

-- The octets of one TLV.
abbrev pub frame : RawTlv → List ℕ
frame t = u16_be (type_word t) ++ (u16_be (length t.value) ++ t.value)

pub length-frame : (t : RawTlv) → length (frame t) ≡ 4 + length t.value
length-frame t = omega arith

abbrev m_bit : Bool → ℕ
m_bit m = if m then 32768 else 0

type_word_lem : (t : RawTlv) → t.tlv_type < 16384 → type_word t ≡ t.tlv_type + m_bit t.mandatory
type_word_lem t h = ground (arith, mask_14 t.tlv_type, set_15 (t.tlv_type % 16384))

-- `encode_into` succeeds on exactly the valid TLVs, and then appends the frame.
pub encode_into_lem :
    (t : RawTlv) (out : List ℕ) → IsValid t → encode_into t out ≡ ok (out ++ frame t)
unfolding encode_into
encode_into_lem t out h = ground (arith, mask_high_2 t.tlv_type)

pub encode_into-eq-ok :
    (t : RawTlv) (out out' : List ℕ)
    → IsU16 t.tlv_type
    → encode_into t out ≡ ok out'
    → IsValid t × (out' ≡ out ++ frame t)
unfolding encode_into
encode_into-eq-ok t out out' u h = ground (arith, mask_high_2 t.tlv_type)

-- The value behind a header of four octets.
next_value-append :
    (pre hdr value rest : List ℕ) (word : ℕ)
    → length hdr ≡ 4
    → (bit_and word 0x3fff == 0) ≡ false
    → next_value
        (record { buf = pre ++ (hdr ++ (value ++ rest)); pos = length pre })
        word
        (length value)
      ≡ ok (
        new (not (bit_and word 0x8000 == 0)) (bit_and word 0x3fff) value,
        record { buf = pre ++ (hdr ++ (value ++ rest)); pos = length pre + 4 + length value },
      )
unfolding next_value
next_value-append pre hdr value rest word four typed =
    let cut : get_range (length pre + 4) (length pre + 4 + length value)
          (pre ++ (hdr ++ (value ++ rest)))
        ≡ some value =
      cut_lem in
    rw (typed, cut) refl
  where
    cut_lem :
        get_range (length pre + 4) (length pre + 4 + length value) (pre ++ (hdr ++ (value ++ rest)))
        ≡ some value
    cut_lem =
        let e : length (pre ++ hdr) ≡ length pre + 4 =
          length-append pre hdr ∙ ap (λ (n : ℕ). length pre + n) four in
        rw (← append_assoc pre hdr (value ++ rest), ← e) (get_range-append (pre ++ hdr) value rest)

-- The header and the value of a frame that stands at the cursor.
next_tlv-append :
    (pre value rest : List ℕ) (a b c d : ℕ)
    → (bit_and (a * 256 + b) 0x3fff == 0) ≡ false
    → c * 256 + d ≡ length value
    → next_tlv (record { buf = pre ++ (a ∷ b ∷ c ∷ d ∷ (value ++ rest)); pos = length pre })
      ≡ ok (
        new (not (bit_and (a * 256 + b) 0x8000 == 0)) (bit_and (a * 256 + b) 0x3fff) value,
        record {
          buf = pre ++ (a ∷ b ∷ c ∷ d ∷ (value ++ rest));
          pos = length pre + 4 + length value;
        },
      )
unfolding next_tlv
next_tlv-append pre value rest a b c d typed len =
    let hdr : List ℕ = a ∷ b ∷ c ∷ d ∷ [] in
    rw (get_range-append pre hdr (value ++ rest), len)
      (next_value-append pre hdr value rest (a * 256 + b) refl typed)

word_octets : (w : ℕ) → IsU16 w → w / 256 % 256 * 256 + w % 256 ≡ w
word_octets w h = omega arith

type_word-lt : (t : RawTlv) → t.tlv_type < 16384 → IsU16 (type_word t)
type_word-lt t h = rw (type_word_lem t h) (ground arith)

type_of_word : (t : RawTlv) → t.tlv_type < 16384 → bit_and (type_word t) 0x3fff ≡ t.tlv_type
type_of_word t h = mask_14 (type_word t) (type_word-lt t h) ∙ rw (type_word_lem t h) (ground arith)

mandatory_of_word :
    (t : RawTlv) → t.tlv_type < 16384 → not (bit_and (type_word t) 0x8000 == 0) ≡ t.mandatory
mandatory_of_word t h =
    rw (mask_15 (type_word t) (type_word-lt t h), type_word_lem t h) (ground arith)

-- `next_tlv` reads the frame at the cursor back, whatever stands before and behind it.
pub next_tlv-frame :
    (pre rest : List ℕ) (t : RawTlv)
    → IsValid t
    → next_tlv (record { buf = pre ++ (frame t ++ rest); pos = length pre })
      ≡ ok (t, record { buf = pre ++ (frame t ++ rest); pos = length pre + 4 + length t.value })
next_tlv-frame pre rest t h =
    let w : ℕ = type_word t in
    let n : ℕ = length t.value in
    let e : w / 256 % 256 * 256 + w % 256 ≡ w = word_octets w (type_word-lt t h.type_fits) in
    let u : bit_and (w / 256 % 256 * 256 + w % 256) 0x3fff ≡ t.tlv_type =
      rw e (type_of_word t h.type_fits) in
    let m : not (bit_and (w / 256 % 256 * 256 + w % 256) 0x8000 == 0) ≡ t.mandatory =
      rw e (mandatory_of_word t h.type_fits) in
    rw (u, m) at
      (next_tlv-append pre t.value rest (w / 256 % 256) (w % 256) (n / 256 % 256) (n % 256)
        (rw u (ground arith)) (word_octets n (omega arith)))
