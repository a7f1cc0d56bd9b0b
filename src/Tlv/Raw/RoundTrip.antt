-- ===== src/Tlv/Raw/RoundTrip.antt =====
-- crates/teap/src/tlv/raw.rs: `parse_all` on what `encode_all` writes.
use usg_supplicant.Common.{
  ℕ, zero, suc, ◌+◌, ◌≤◌, ◌<◌, true, false, List, [], ◌∷◌, ◌++◌, append-nil, append_assoc, ok,
  length, length-append, leb, ◌≡◌, sym, ap, ◌∙◌, arith, All, le→leb,
}
use usg_supplicant.Tlv.Raw.{
  RawTlv, encode_each, encode_all, TlvReader, next_tlv, parse_loop, parse_all, reader_is_empty,
  max_tlvs,
}
use usg_supplicant.Tlv.Raw.Frame.{IsValid, frame, length-frame, encode_into_lem, next_tlv-frame}

-- The octets of a sequence of TLVs.
abbrev pub frames : List RawTlv → List ℕ
frames [] = []
frames (t ∷ ts) = frame t ++ frames ts

abbrev pub AreValid : List RawTlv → Type 0
AreValid ts = All IsValid ts

pub encode_each_lem :
    (ts : List RawTlv) (out : List ℕ) → AreValid ts → encode_each ts out ≡ ok (out ++ frames ts)
unfolding encode_each
encode_each_lem [] out h = rw append-nil
encode_each_lem (t ∷ ts) out (h, hs) =
    rw (encode_into_lem t out h)
      (encode_each_lem ts (out ++ frame t) hs ∙ ap ok (append_assoc out (frame t) (frames ts)))

parse_loop_done :
    (left : ℕ) (r : TlvReader) (seen : List RawTlv)
    → reader_is_empty r ≡ true
    → parse_loop left r seen ≡ ok seen
unfolding parse_loop
parse_loop_done zero r seen e = rw e
parse_loop_done (suc left) r seen e = ground arith

parse_loop_step :
    (left : ℕ) (r r' : TlvReader) (t : RawTlv) (seen : List RawTlv)
    → reader_is_empty r ≡ false
    → next_tlv r ≡ ok (t, r')
    → parse_loop (suc left) r seen ≡ parse_loop left r' (seen ++ t ∷ [])
unfolding parse_loop
parse_loop_step left r r' t seen more e = ground arith

empty_at_end : (xs : List ℕ) → leb (length (xs ++ [])) (length xs) ≡ true
empty_at_end xs = rw append-nil (le→leb (length xs) (length xs) (omega arith))

not_empty : (xs ys : List ℕ) → 0 < length ys → leb (length (xs ++ ys)) (length xs) ≡ false
not_empty xs ys h = ground (arith, length-append xs ys)

-- The loop started at the cursor behind `pre`.
parse_loop-frames :
    (ts : List RawTlv) (left : ℕ) (pre : List ℕ) (seen : List RawTlv)
    → AreValid ts
    → length ts ≤ left
    → parse_loop left (record { buf = pre ++ frames ts; pos = length pre }) seen ≡ ok (seen ++ ts)
parse_loop-frames [] left pre seen h n =
    parse_loop_done left (record { buf = pre ++ []; pos = length pre }) seen (empty_at_end pre)
    ∙ ap ok (sym (append-nil seen))
parse_loop-frames (t ∷ ts) zero pre seen h n = absurd (omega arith)
parse_loop-frames (t ∷ ts) (suc left) pre seen (h, hs) n =
    let same : (pre ++ frame t) ++ frames ts ≡ pre ++ (frame t ++ frames ts) =
      append_assoc pre (frame t) (frames ts) in
    let moved : length (pre ++ frame t) ≡ length pre + 4 + length t.value =
      length-append pre (frame t) ∙ omega (arith, length-frame t) in
    parse_loop_step left (record { buf = pre ++ (frame t ++ frames ts); pos = length pre })
      (record { buf = pre ++ (frame t ++ frames ts); pos = length pre + 4 + length t.value }) t seen
      (not_empty pre (frame t ++ frames ts) (omega arith)) (next_tlv-frame pre (frames ts) t h)
    ∙ rw (same, moved) at
        (parse_loop-frames ts left (pre ++ frame t) (seen ++ t ∷ []) hs (omega arith))
    ∙ ap ok (append_assoc seen (t ∷ []) ts)

pub parse_all-frames :
    (ts : List RawTlv) → AreValid ts → length ts ≤ max_tlvs → parse_all (frames ts) ≡ ok ts
unfolding parse_all
parse_all-frames ts h n = parse_loop-frames ts max_tlvs [] [] h n

-- A list of at most 4096 TLVs, each with a non-zero type of 14 bits and a value of at most 65535
-- octets, is encoded, and `parse_all` reads the same list back from the octets.
pub parse_all-encode_all :
    (ts : List RawTlv)
    → AreValid ts
    → length ts ≤ max_tlvs
    → (buf : List ℕ) × (encode_all ts ≡ ok buf) × (parse_all buf ≡ ok ts)
unfolding encode_all
parse_all-encode_all ts h n = (frames ts, encode_each_lem ts [] h, parse_all-frames ts h n)
