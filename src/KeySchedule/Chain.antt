-- ===== src/KeySchedule/Chain.antt =====
-- crates/teap/src/keyschedule.rs: the compound-key chain.
use usg_supplicant.Common.{
  ◌⊎◌, inl, inr, dec_lt, ℕ, ◌*◌, ◌≤◌, ◌<◌, false, List, ◌++◌, ok, err, length, take, drop, take_all,
  ℕ_discrete, ◌↔◌, length-take, length-drop, saturating_add, ◌==◌, ◌≡◌, ◌≢◌, refl, subst, ◌∙◌,
  arith,
}
use usg_supplicant.KeySchedule.Errors.{bad_imsk_len, no_methods}
use usg_supplicant.KeySchedule.{
  TeapMac, KeySchedule, new, imck_block, absorbed, absorb_inner, derive_session_keys,
  label_inner_methods_compound_keys, label_msk, label_emsk,
}
use usg_supplicant.KeySchedule.Expand.{MacLaws, okm, hkdf_expand-okm}

-- A chain starts from a seed of 40 octets and from no other, with no method absorbed.
pub new_lem :
    (seed : List ℕ)
    → (ks : KeySchedule)
    → (new seed ≡ ok ks) ↔ ((length seed ≡ 40) × (ks ≡ record { s_imck = seed; methods = 0 }))
unfolding new
new_lem seed ks = (λ h. ground arith, λ h. ground arith)

module _ (mac : TeapMac) (laws : MacLaws mac) where
  -- The 60 octets of `IMCK[j]`.
  pub imck : KeySchedule → List ℕ → List ℕ
  imck ks imsk = okm mac ks.s_imck (label_inner_methods_compound_keys ++ imsk) 60

  imck_block_lem :
      (ks : KeySchedule) (imsk : List ℕ)
      → (imck_block mac ks imsk ≡ ok (imck ks imsk)) × (length (imck ks imsk) ≡ 60)
  unfolding imck_block imck
  imck_block_lem ks imsk =
      (hkdf_expand-okm mac ks.s_imck (label_inner_methods_compound_keys ++ imsk) laws 60).0
        (omega (arith, laws.hash_some))

  absorbed_lem :
      (ks : KeySchedule) (imsk : List ℕ)
      → length imsk ≡ 32
      → absorbed mac ks imsk
        ≡ ok (
          record { as_bytes = drop 40 (imck ks imsk) },
          record { s_imck = take 40 (imck ks imsk); methods = saturating_add ks.methods 1 },
        )
  unfolding absorbed
  absorbed_lem ks imsk h =
      let (made, size) = imck_block_lem ks imsk in
      let b : List ℕ = imck ks imsk in
      let tail : take 20 (drop 40 b) ≡ drop 40 b =
        let twenty : length (drop 40 b) ≡ 20 = length-drop 40 b ∙ omega arith in
        subst (λ n. take n (drop 40 b) ≡ drop 40 b) twenty (take_all (drop 40 b)) in
      rw (h, made, size, tail) refl

  pub absorb_inner_lem :
      (ks : KeySchedule) (imsk : List ℕ)
      → (length imsk ≡ 32
          → absorb_inner mac ks imsk ≡ (
            ok (record { as_bytes = drop 40 (imck ks imsk) }),
            record { s_imck = take 40 (imck ks imsk); methods = saturating_add ks.methods 1 },
          ))
        × (length imsk ≢ 32 → absorb_inner mac ks imsk ≡ (err (bad_imsk_len (length imsk)), ks))
  unfolding absorb_inner
  absorb_inner_lem ks imsk =
      (λ h. rw (absorbed_lem ks imsk h, absorb_inner) refl, λ h. unfold absorbed in ground arith)

  pub derive_session_keys_lem :
      (ks : KeySchedule)
      → (ks.methods ≡ 0 → derive_session_keys mac ks ≡ err no_methods)
        × (0 < ks.methods
            → (derive_session_keys mac ks
                ≡ ok (okm mac ks.s_imck label_msk 64, okm mac ks.s_imck label_emsk 64))
              × (length (okm mac ks.s_imck label_msk 64) ≡ 64)
              × (length (okm mac ks.s_imck label_emsk 64) ≡ 64))
  unfolding derive_session_keys
  derive_session_keys_lem ks = (λ z. rw z refl, λ pos. made pos)
    where
      fits : 64 ≤ mac.hash_len * 255
      fits = omega (arith, laws.hash_some)

      made :
          0 < ks.methods
          → (derive_session_keys mac ks
              ≡ ok (okm mac ks.s_imck label_msk 64, okm mac ks.s_imck label_emsk 64))
            × (length (okm mac ks.s_imck label_msk 64) ≡ 64)
            × (length (okm mac ks.s_imck label_emsk 64) ≡ 64)
      made pos =
          let (msk, msk_len) = (hkdf_expand-okm mac ks.s_imck label_msk laws 64).0 fits in
          let (emsk, emsk_len) = (hkdf_expand-okm mac ks.s_imck label_emsk laws 64).0 fits in
          let some_method : (ks.methods == 0) ≡ false = ground arith in
          (rw (some_method, msk, emsk) refl, msk_len, emsk_len)

  -- For a MAC that keeps the laws, an inner key of 32 octets is always absorbed: `IMCK[j]` is
  -- HKDF-Expand of the chain's key over the label and the inner key, its first 40 octets become the
  -- chain's key, the other 20 are the CMK, and one more method is counted. A key of another length
  -- is refused, and the chain stays.
  pub absorb_inner_cases :
      (ks : KeySchedule) (imsk : List ℕ)
      → ((length imsk ≡ 32)
          × (absorb_inner mac ks imsk ≡ (
            ok (record { as_bytes = drop 40 (imck ks imsk) }),
            record { s_imck = take 40 (imck ks imsk); methods = saturating_add ks.methods 1 },
          ))
          × (length (take 40 (imck ks imsk)) ≡ 40)
          × (length (drop 40 (imck ks imsk)) ≡ 20))
        ⊎ ((length imsk ≢ 32) × (absorb_inner mac ks imsk ≡ (err (bad_imsk_len (length imsk)), ks)))
  absorb_inner_cases ks imsk = elim (ℕ_discrete (length imsk) 32) [
    | yes h ↦
        let (_, size) = imck_block_lem ks imsk in
        inl (
          h,
          (absorb_inner_lem ks imsk).0 h,
          length-take 40 (imck ks imsk) ∙ omega arith,
          length-drop 40 (imck ks imsk) ∙ omega arith,
        )
    | no h ↦ inr (h, (absorb_inner_lem ks imsk).1 h)
  ]

  -- For a MAC that keeps the laws, keys are exported exactly when at least one method was absorbed.
  -- Then they are the OKMs of 64 octets under the two labels; otherwise the error is `NoMethods`.
  derive_session_keys_cases :
      (ks : KeySchedule)
      → ((ks.methods ≡ 0) × (derive_session_keys mac ks ≡ err no_methods))
        ⊎ ((0 < ks.methods)
            × (derive_session_keys mac ks
                ≡ ok (okm mac ks.s_imck label_msk 64, okm mac ks.s_imck label_emsk 64))
            × (length (okm mac ks.s_imck label_msk 64) ≡ 64)
            × (length (okm mac ks.s_imck label_emsk 64) ≡ 64))
  derive_session_keys_cases ks = elim (dec_lt 0 ks.methods) [
    | yes pos ↦
        (let (made, msk_len, emsk_len) = (derive_session_keys_lem ks).1 pos in
          inr (pos, made, msk_len, emsk_len))
    | no z ↦
        (let none_yet : ks.methods ≡ 0 = omega arith in
          inl (none_yet, (derive_session_keys_lem ks).0 none_yet))
  ]
