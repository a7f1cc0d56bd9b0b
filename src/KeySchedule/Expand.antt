-- ===== src/KeySchedule/Expand.antt =====
-- crates/teap/src/keyschedule.rs: HKDF-Expand and RFC 5869, section 2.3.
use usg_supplicant.Common.{
  ◌⊎◌, inl, inr, dec_lt, ℕ, zero, suc, ◌+◌, ◌*◌, ◌/◌, ◌%◌, ◌≤◌, ◌<◌, false, List, [], ◌∷◌, ◌++◌,
  append-nil, append_assoc, ok, err, length, take, length-append, length-take, inl, inr, ◌==◌, ◌≡◌,
  refl, ap, ◌∙◌, arith, le→leb, Bool-cases,
}
use native.Mathlib.Nat.{div-add-mod, lt_of_mul-lt-mul_right}
use usg_supplicant.Common.Bytes.{AreBytes}
use usg_supplicant.KeySchedule.Errors.{KeyScheduleError, output_too_long}
use usg_supplicant.KeySchedule.{TeapMac, div_ceil, saturating_mul, expand_loop, hkdf_expand}

-- What is assumed of the MAC that is injected: an output is `hash_len` octets, at least one
-- and at most 64 (SHA-512).
pub record MacLaws (mac : TeapMac) : Type 0 where
  pub length-hmac : (key msg : List ℕ) → length (mac.hmac key msg) ≡ mac.hash_len
  pub hmac-bytes : (key msg : List ℕ) → AreBytes (mac.hmac key msg)
  pub hash_some : 0 < mac.hash_len
  pub hash_small : mac.hash_len ≤ 64

ceil_bounds :
    (h len : ℕ) → 0 < h → len ≤ h * 255 → (len ≤ div_ceil len h * h) × (div_ceil len h ≤ 255)
ceil_bounds h len pos fits =
    let whole : len ≡ len / h * h + len % h = omega (arith, div-add-mod len h) in
    let small : len % h < h = omega arith in
    elim (Bool-cases (len % h == 0)) [
      | inl even ↦ rw even (
        ground arith,
        omega (arith, lt_of_mul-lt-mul_right h {m = len / h} {n = 256} (ground arith)),
      )
      | inr odd ↦ rw odd (
        omega arith,
        omega (arith, lt_of_mul-lt-mul_right h {m = len / h} {n = 255} (ground arith)),
      )
    ]

module _ (mac : TeapMac) (prk info : List ℕ) where
  -- `T(0)` is empty, and `T(n) = HMAC(PRK, T(n-1) | info | n)`.
  pub block : ℕ → List ℕ
  block zero = []
  block (suc n) = mac.hmac prk (block n ++ (info ++ (suc n ∷ [])))

  -- `T(k+1) | ... | T(k+n)`
  pub blocks_from : ℕ → ℕ → List ℕ
  unfolding block
  blocks_from k zero = []
  blocks_from k (suc n) = block (suc k) ++ blocks_from (suc k) n

  expand_loop-blocks :
      (e : KeyScheduleError) (n k : ℕ) (okm : List ℕ)
      → k + n ≤ 255
      → expand_loop mac prk info e n (suc k) (block k) okm ≡ ok (okm ++ blocks_from k n)
  unfolding expand_loop block blocks_from
  expand_loop-blocks e zero k okm h = rw append-nil refl
  expand_loop-blocks e (suc n) k okm h =
      let next : suc k + 1 ≡ suc (suc k) = omega arith in
      let t : List ℕ = mac.hmac prk (block k ++ (info ++ (suc k ∷ []))) in
      rw (le→leb (suc k) 255 (omega arith), next)
        (expand_loop-blocks e n (suc k) (okm ++ t) (omega arith)
          ∙ ap ok (append_assoc okm t (blocks_from (suc k) n)))

  length-blocks_from : MacLaws mac → (k n : ℕ) → length (blocks_from k n) ≡ n * mac.hash_len
  unfolding block blocks_from
  length-blocks_from laws k zero = omega arith
  length-blocks_from laws k (suc n) =
      length-append (block (suc k)) (blocks_from (suc k) n)
      ∙ omega (
        arith,
        length-blocks_from laws (suc k) n,
        laws.length-hmac prk (block k ++ (info ++ (suc k ∷ []))),
      )

  -- The OKM of RFC 5869: the first `len` octets of `T(1) | ... | T(N)`, with N = ceil(len / HashLen).
  pub okm : ℕ → List ℕ
  okm len = take len (blocks_from 0 (div_ceil len mac.hash_len))

  pub length-okm : MacLaws mac → (len : ℕ) → len ≤ mac.hash_len * 255 → length (okm len) ≡ len
  unfolding okm
  length-okm laws len fits =
      let n : ℕ = div_ceil len mac.hash_len in
      let (enough, _) = ceil_bounds mac.hash_len len laws.hash_some fits in
      length-take len (blocks_from 0 n) ∙ omega (arith, length-blocks_from laws 0 n)

  pub hkdf_expand-okm :
      MacLaws mac
      → (len : ℕ)
      → ((len ≤ mac.hash_len * 255)
          → (hkdf_expand mac prk info len ≡ ok (okm len)) × (length (okm len) ≡ len))
        × (mac.hash_len * 255 < len
            → hkdf_expand mac prk info len ≡ err (output_too_long len (mac.hash_len * 255)))
  unfolding hkdf_expand expand_loop okm blocks_from
  hkdf_expand-okm laws len =
      (λ fits. (expanded fits, length-okm laws len fits), λ long. refused long)
    where
      unsaturated : saturating_mul mac.hash_len 255 ≡ mac.hash_len * 255
      unsaturated = omega (arith, laws.hash_small)

      some_hash : (mac.hash_len == 0) ≡ false
      some_hash = ground (arith, laws.hash_some)

      expanded : len ≤ mac.hash_len * 255 → hkdf_expand mac prk info len ≡ ok (okm len)
      expanded fits =
          let (_, few) = ceil_bounds mac.hash_len len laws.hash_some fits in
          rw
            (
              some_hash,
              unsaturated,
              le→leb len (mac.hash_len * 255) fits,
              expand_loop-blocks (output_too_long len (mac.hash_len * 255))
                  (div_ceil len mac.hash_len) 0 [] (omega arith),
            )
            refl

      refused :
          mac.hash_len * 255 < len
          → hkdf_expand mac prk info len ≡ err (output_too_long len (mac.hash_len * 255))
      refused long = rw (some_hash, unsaturated) (ground arith)

  -- For a MAC that keeps the laws, `hkdf_expand` is HKDF-Expand: for every length up to 255 times
  -- the hash length it returns the OKM of RFC 5869, which has that length; for a longer one it
  -- returns `OutputTooLong`.
  pub hkdf_expand_cases :
      MacLaws mac
      → (len : ℕ)
      → ((len ≤ mac.hash_len * 255)
          × (hkdf_expand mac prk info len ≡ ok (okm len))
          × (length (okm len) ≡ len))
        ⊎ ((mac.hash_len * 255 < len)
            × (hkdf_expand mac prk info len ≡ err (output_too_long len (mac.hash_len * 255))))
  hkdf_expand_cases laws len = elim (dec_lt (mac.hash_len * 255) len) [
    | yes long ↦ inr (long, (hkdf_expand-okm laws len).1 long)
    | no short ↦
        (let fits : len ≤ mac.hash_len * 255 = omega arith in
          let (made, size) = (hkdf_expand-okm laws len).0 fits in inl (fits, made, size))
  ]
