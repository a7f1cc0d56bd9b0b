-- ===== src/Creds/Ecdsa/Decodes.antt =====
-- crates/creds/src/ecdsa.rs: `raw_to_der` and a strict reader of DER.
use usg_supplicant.Common.{
  ℕ, ◌+◌, ◌*◌, ◌≤◌, true, ◌||◌, List, [], ◌∷◌, ◌++◌, append-nil, some, ok, length, get_range,
  get_from, get_range-append, get_from-append, lt→ltb, le→leb, max_64, ◌==◌, ==_iff, ◌≡◌, refl, ap,
  subst, ◌∙◌, arith, length-append, ◌⊎◌, inl, inr,
}
use usg_supplicant.Common.Bytes.{AreBytes}
use usg_supplicant.Creds.Ecdsa.{p256_coord_len, p384_coord_len, der_len, der_integer, raw_to_der}
use usg_supplicant.Creds.Ecdsa.Reader.{number, read_integer, read_signature, read_integer-content}
use usg_supplicant.Creds.Ecdsa.Magnitude.{
  written, length-written, der_integer-written, integer_value-written,
}

abbrev integer : List ℕ → List ℕ
integer coord = 2 ∷ length (written coord) ∷ written coord

first_half : (r s : List ℕ) (n : ℕ) → length r ≡ n → get_range 0 n (r ++ s) ≡ some r
first_half r s n h =
    let here : 0 + length r ≡ n = omega (arith, h) in
    subst (λ k. get_range 0 k (r ++ s) ≡ some r) here (get_range-append [] r s)

second_half : (r s : List ℕ) (n : ℕ) → length r ≡ n → get_from n (r ++ s) ≡ some s
second_half r s n h = subst (λ k. get_from k (r ++ s) ≡ some s) h (get_from-append r s)

short : (n : ℕ) → (n ≡ 32) ⊎ (n ≡ 48) → n ≤ 48
short n (inl e) = omega arith
short n (inr e) = omega arith

length-integers :
    (r s : List ℕ) → length r ≤ 48 → length s ≤ 48 → length (integer r ++ integer s) ≤ 104
length-integers r s lr ls =
    omega (arith, length-append (integer r) (integer s), length-written r, length-written s)

approved_curve : (n : ℕ) → (n ≡ 32) ⊎ (n ≡ 48) → (n == p256_coord_len || n == p384_coord_len) ≡ true
approved_curve n (inl e) = rw e refl
approved_curve n (inr e) = rw e refl

raw_to_der-written :
    (r s : List ℕ) (n : ℕ)
    → (n ≡ 32) ⊎ (n ≡ 48)
    → length r ≡ n
    → length s ≡ n
    → raw_to_der (r ++ s) n ≡ ok (0x30 ∷ length (integer r ++ integer s) ∷ (integer r ++ integer s))
unfolding raw_to_der der_len
raw_to_der-written r s n approved lr ls =
    let fits : n ≤ 48 = short n approved in
    let lr48 : length r ≤ 48 = omega arith in
    let ls48 : length s ≤ 48 = omega arith in
    let size = length-integers r s lr48 ls48 in
    let whole : (length (r ++ s) == n * 2) ≡ true =
      (==_iff _ _).1 (omega (arith, length-append r s)) in
    let body : der_integer s (der_integer r []) ≡ integer r ++ integer s =
      der_integer-written s (der_integer r []) ls48
      ∙ ap (λ x. x ++ integer s) (der_integer-written r [] lr48) in
    rw
      (
        approved_curve n approved,
        le→leb (n * 2) max_64 (omega arith),
        whole,
        first_half r s n lr,
        second_half r s n lr,
        body,
        lt→ltb (length (integer r ++ integer s)) 0x80 (omega arith),
      )
      refl

-- For a curve with coordinates of 32 or 48 octets: the raw signature of two such coordinates becomes
-- a DER SEQUENCE of two INTEGERs that a strict reader reads, to the very end, as the two numbers
-- that the coordinates stand for.
pub read_signature-raw_to_der :
    (r s : List ℕ) (n : ℕ)
    → (n ≡ 32) ⊎ (n ≡ 48)
    → length r ≡ n
    → length s ≡ n
    → AreBytes r
    → AreBytes s
    → (der : List ℕ) × (raw_to_der (r ++ s) n ≡ ok der)
      × (read_signature der ≡ some (number 0 r, number 0 s))
unfolding read_signature
read_signature-raw_to_der r s n approved lr ls br bs =
    let fits : n ≤ 48 = short n approved in
    let body : List ℕ = integer r ++ integer s in
    let size : length body ≤ 104 = length-integers r s (omega arith) (omega arith) in
    let second : read_integer (integer s) ≡ some (number 0 s, []) =
      subst (λ x. read_integer (2 ∷ length (written s) ∷ x) ≡ some (number 0 s, []))
        (append-nil (written s))
        (read_integer-content (written s) [] (number 0 s) (integer_value-written s bs)
          (omega (arith, length-written s))) in
    (
      0x30 ∷ length body ∷ body,
      raw_to_der-written r s n approved lr ls,
      rw
          (
            lt→ltb (length body) 128 (omega arith),
            (==_iff (length body) (length body)).1 refl,
            read_integer-content (written r) (integer s) (number 0 r) (integer_value-written r br)
                (omega (arith, length-written r)),
            second,
          )
          refl,
    )
