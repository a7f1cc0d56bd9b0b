-- ===== src/Tlv/Raw/Sound.antt =====
-- crates/teap/src/tlv/raw.rs: decoding any buffer, well formed or not.
use usg_supplicant.Common.{
  ℕ, zero, suc, ◌+◌, ◌-◌, ◌*◌, ◌≤◌, true, List, [], ◌∷◌, ◌++◌, some, ok, and_then, length,
  length-append, length-take, length-drop, take, drop, get_range, ◌≡◌, append-nil, append_assoc,
  subst, inl, inr, refl, sym, ap, ◌∙◌, arith, All-take, All-drop, Bool-cases, Option-cases,
  Result-cases,
}
use usg_supplicant.Common.Bits.{mask_14}
use usg_supplicant.Common.Bytes.{AreBytes, IsByte, IsU16}
use usg_supplicant.Tlv.Raw.{
  RawTlv, TlvReader, new_reader, array_4, next_value, next_tlv, parse_loop, parse_all, encode_all,
  reader_is_empty, max_tlvs,
}
use usg_supplicant.Tlv.Raw.Frame.{IsValid, frame, length-frame}
use usg_supplicant.Tlv.Raw.RoundTrip.{AreValid, frames, parse_all-frames, encode_each_lem}

-- What `next_tlv` has done when it succeeds: the TLV is valid, the buffer is the same, and the
-- cursor stands behind the TLV and inside the buffer.
pub record Advanced (r : TlvReader) (t : RawTlv) (r' : TlvReader) : Type 0 where
  pub valid : IsValid t
  pub same_buf : r'.buf ≡ r.buf
  pub moved : r'.pos ≡ r.pos + 4 + length t.value
  pub inside : r'.pos ≤ length r.buf

next_value-Advanced :
    (r : TlvReader) (word declared : ℕ) {t : RawTlv} {r' : TlvReader}
    → IsU16 word
    → IsU16 declared
    → next_value r word declared ≡ ok (t, r')
    → Advanced r t r'
unfolding next_value
next_value-Advanced r word declared {t} {r'} u d h = ground (
  arith,
  mask_14 word,
  length-take declared (drop (r.pos + 4) r.buf),
  length-drop (r.pos + 4) r.buf,
)

array_4-bytes :
    (s : List ℕ) (a b c d : ℕ)
    → AreBytes s
    → array_4 s ≡ some (a, b, c, d)
    → IsU16 (a * 256 + b) × IsU16 (c * 256 + d)
array_4-bytes s a b c d h e = ground arith

header-bytes :
    (r : TlvReader) (a b c d : ℕ)
    → AreBytes r.buf
    → and_then (get_range r.pos (r.pos + 4) r.buf) array_4 ≡ some (a, b, c, d)
    → IsU16 (a * 256 + b) × IsU16 (c * 256 + d)
header-bytes r a b c d h e =
    array_4-bytes (take (r.pos + 4 - r.pos) (drop r.pos r.buf)) a b c d
      (All-take IsByte _ _ (All-drop IsByte r.pos r.buf h)) (ground arith)

pub next_tlv-Advanced :
    (r : TlvReader) {t : RawTlv} {r' : TlvReader}
    → AreBytes r.buf
    → next_tlv r ≡ ok (t, r')
    → Advanced r t r'
unfolding next_tlv
next_tlv-Advanced r h e =
    elim (Option-cases (and_then (get_range r.pos (r.pos + 4) r.buf) array_4)) [
      | inl gone ↦ absurd (ground (arith))
      | inr ((a, b, c, d), got) ↦
          let (u, v) = header-bytes r a b c d h got in
          next_value-Advanced r (a * 256 + b) (c * 256 + d) u v (rw got at e)
    ]

-- The octets that a list of TLVs takes.
abbrev pub wire_length : List RawTlv → ℕ
wire_length [] = 0
wire_length (t ∷ ts) = 4 + length t.value + wire_length ts

-- `found` is what the loop adds to the TLVs that it has collected already.
record Parsed (left : ℕ) (r : TlvReader) (seen all : List RawTlv) : Type 0 where
  found : List RawTlv
  split : all ≡ seen ++ found
  valid : AreValid found
  few : length found ≤ left
  exact : r.pos ≤ length r.buf → r.pos + wire_length found ≡ length r.buf

Parsed-done :
    (left : ℕ) (r : TlvReader) (seen : List RawTlv)
    → reader_is_empty r ≡ true
    → Parsed left r seen seen
Parsed-done left r seen e = record {
  found = [];
  split = sym (append-nil seen);
  valid = tt;
  few = omega arith;
  exact = λ p. ground arith;
}

Parsed-step :
    (left : ℕ) (r r' : TlvReader) (t : RawTlv) (seen : List RawTlv) {all : List RawTlv}
    → Advanced r t r'
    → Parsed left r' (seen ++ t ∷ []) all
    → Parsed (suc left) r seen all
Parsed-step left r r' t seen a p = record {
  found = t ∷ p.found;
  split = p.split ∙ append_assoc seen (t ∷ []) p.found;
  valid = (a.valid, p.valid);
  few = omega arith;
  exact = λ q. omega (arith, p.exact (omega (arith, ap length a.same_buf)), ap length a.same_buf);
}

parse_loop-Parsed :
    (left : ℕ) (r : TlvReader) (seen : List RawTlv) {all : List RawTlv}
    → AreBytes r.buf
    → parse_loop left r seen ≡ ok all
    → Parsed left r seen all
unfolding parse_loop
parse_loop-Parsed zero r seen {all} h e = elim (Bool-cases (reader_is_empty r)) [
  | inl done ↦
      let same : seen ≡ all = ground arith in
      subst (λ x. Parsed 0 r seen x) same (Parsed-done 0 r seen done)
  | inr more ↦ absurd (ground arith)
]
parse_loop-Parsed (suc left) r seen {all} h e = elim (Bool-cases (reader_is_empty r)) [
  | inl done ↦
      let same : seen ≡ all = ground arith in
      subst (λ x. Parsed (suc left) r seen x) same (Parsed-done (suc left) r seen done)
  | inr more ↦ elim (Result-cases (next_tlv r)) [
    | inl ((t, r'), got) ↦
        let a : Advanced r t r' = next_tlv-Advanced r h got in
        Parsed-step left r r' t seen a (
          parse_loop-Parsed left r' (seen ++ t ∷ []) (subst AreBytes (sym a.same_buf) h)
            (ground arith))
    | inr (x, got) ↦ absurd (ground arith)
  ]
]

length-frames : (ts : List RawTlv) → length (frames ts) ≡ wire_length ts
length-frames [] = refl
length-frames (t ∷ ts) =
    length-append (frame t) (frames ts) ∙ omega (arith, length-frame t, length-frames ts)

-- Whatever octets `parse_all` accepts, it returns at most 4096 TLVs, all of them encodable, which
-- account for every octet of the buffer (there is no trailing rest); encoding them gives a buffer
-- of the same length that decodes to the same TLVs.
pub parse_all_sound :
    (buf : List ℕ) {ts : List RawTlv}
    → AreBytes buf
    → parse_all buf ≡ ok ts
    → (length ts ≤ max_tlvs)
      × AreValid ts
      × ((canon : List ℕ) × (encode_all ts ≡ ok canon)
          × (length canon ≡ length buf)
          × (parse_all canon ≡ ok ts))
unfolding parse_all encode_all
parse_all_sound buf {ts} h e =
    let p : Parsed max_tlvs (new_reader buf) [] ts =
      parse_loop-Parsed max_tlvs (new_reader buf) [] h e in
    let valid : AreValid ts = subst AreValid (sym p.split) p.valid in
    let few : length ts ≤ max_tlvs = omega (arith, ap length p.split) in
    let size : wire_length ts ≡ length buf =
      omega (arith, ap wire_length p.split, p.exact (omega arith)) in
    (
      few,
      valid,
      (
        frames ts,
        encode_each_lem ts [] valid,
        length-frames ts ∙ size,
        parse_all-frames ts valid few,
      ),
    )
