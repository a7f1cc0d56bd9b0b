-- ===== src/Creds/Selection.antt =====
-- crates/creds/src/selection.rs: `select` against the list of the certificates that match.
use usg_supplicant.Common.{
  ℕ, suc, ◌+◌, ◌≤◌, Bool, true, false, List, [], ◌∷◌, Option, none, some, Result, ok, err, length,
  saturating_add, max_64, ◌>>=◌, ◌≡◌, refl, ap, sym, ◌∙◌, arith, ◌++◌, append-nil, append_assoc,
  length-append,
}
use usg_supplicant.Creds.{
  CredError, CertSelector, Certificates, matches, select_loop, select, note_match, selected,
}

-- What the number of the certificates that match decides.
abbrev pub only : List (List ℕ) → Result CredError (List ℕ)
only [] = err CredError.no_matching_cert
only (cert ∷ []) = ok cert
only (cert ∷ more) = err (CredError.ambiguous_match (length (cert ∷ more)))

module _ {X : Type 0} (x509 : Certificates X) where
  abbrev pub keep : Bool → List ℕ → List (List ℕ) → List (List ℕ)
  keep true cert certs = cert ∷ certs
  keep false cert certs = certs

  -- The certificates that match, up to the first that cannot be read.
  unfoldable pub matching : CertSelector → List (List ℕ) → Result CredError (List (List ℕ))
  matching s [] = ok []
  matching s (cert ∷ certs) = do
    matched ← matches x509 s cert
    rest ← matching s certs
    ok (keep matched cert rest)

  last : List (List ℕ) → Option (List ℕ)
  last [] = none
  last (c ∷ []) = some c
  last (c ∷ d ∷ seen) = last (d ∷ seen)

  last-append : (seen : List (List ℕ)) (cert : List ℕ) → last (seen ++ cert ∷ []) ≡ some cert
  unfolding last
  last-append [] cert = refl
  last-append (c ∷ []) cert = refl
  last-append (c ∷ d ∷ seen) cert = last-append (d ∷ seen) cert

  selected_many :
      (o : Option (List ℕ)) (n : ℕ)
      → selected x509 o (suc (suc n)) ≡ err (CredError.ambiguous_match (suc (suc n)))
  selected_many none n = refl
  selected_many (some cert) n = refl

  selected-only : (seen : List (List ℕ)) → selected x509 (last seen) (length seen) ≡ only seen
  unfolding last
  selected-only [] = refl
  selected-only (c ∷ []) = refl
  selected-only (c ∷ d ∷ seen) = selected_many (last (d ∷ seen)) (length seen)

  -- The state of the loop stands for the certificates that matched so far.
  select_loop-seen :
      (s : CertSelector) (certs seen : List (List ℕ))
      → length seen + length certs ≤ max_64
      → select_loop x509 s certs (last seen, length seen)
        ≡ (matching s certs >>= λ rest. only (seen ++ rest))
  unfolding select_loop matching
  select_loop-seen s [] seen h = selected-only seen ∙ ap only (sym (append-nil seen))
  select_loop-seen s (cert ∷ certs) seen h =
      matched (matches x509 s cert) (select_loop-seen s certs seen (omega arith)) (
        select_loop-seen s certs (seen ++ cert ∷ [])
          (rw (length-append seen (cert ∷ [])) (omega arith)))
    where
      kept :
          (r : Result CredError (List (List ℕ)))
          → (r >>= λ rest. only ((seen ++ cert ∷ []) ++ rest))
            ≡ (r >>= λ rest. ok (cert ∷ rest)) >>= λ rest. only (seen ++ rest)
      kept (ok rest) = ap only (append_assoc seen (cert ∷ []) rest)
      kept (err e) = refl

      passed :
          (r : Result CredError (List (List ℕ)))
          → (r >>= λ rest. only (seen ++ rest))
            ≡ (r >>= λ rest. ok rest) >>= λ rest. only (seen ++ rest)
      passed (ok rest) = refl
      passed (err e) = refl

      matched :
          (r : Result CredError Bool)
          → select_loop x509 s certs (last seen, length seen)
            ≡ (matching s certs >>= λ rest. only (seen ++ rest))
          → select_loop x509 s certs (last (seen ++ cert ∷ []), length (seen ++ cert ∷ []))
            ≡ (matching s certs >>= λ rest. only ((seen ++ cert ∷ []) ++ rest))
          → (r >>= λ m. select_loop x509 s certs (note_match x509 cert m (last seen, length seen)))
            ≡ ((r >>= λ m. matching s certs >>= λ rest. ok (keep m cert rest)) >>= λ rest.
                only (seen ++ rest))
      matched (err e) out here = refl
      matched (ok false) out here = out ∙ passed (matching s certs)
      matched (ok true) out here =
          let one : saturating_add (length seen) 1 ≡ length (seen ++ cert ∷ []) =
            rw (length-append seen (cert ∷ [])) (omega arith) in
          rw (one, sym (last-append seen cert)) (here ∙ kept (matching s certs))

  -- Over at most 2^64 - 1 certificates, `select` gives the one that matches, `NoMatchingCert` for
  -- none, and `AmbiguousMatch` with their number for more; where one cannot be read, the error.
  pub select-only :
      (s : CertSelector) (certs : List (List ℕ))
      → length certs ≤ max_64
      → select x509 s certs ≡ (matching s certs >>= only)
  unfolding select last
  select-only s certs h = select_loop-seen s certs [] (omega arith)
