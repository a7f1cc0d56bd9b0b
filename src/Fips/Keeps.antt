-- ===== src/Fips/Keeps.antt =====
-- crates/fips-tls/src/backend.rs: the methods and the mark of the check.
use usg_supplicant.Common.{
  ℕ, zero, suc, Bool, true, false, List, [], ◌∷◌, ◌++◌, Result, ok, err, if◌then◌else◌, ltb, ◌==◌,
  length, ◌≡◌, refl, ◌∙◌,
}
use usg_supplicant.Common.Exec.{resume, pure, ◌>>=◌}
use usg_supplicant.Fips.{FipsTlsError}
use usg_supplicant.Fips.Client
use usg_supplicant.Fips.Client.{Connection, Library, ReadError, TeapTlsClient, Act}

module _ {C : Type 0} where
  -- The method leaves the mark of the check as it was.
  abbrev pub Keeps : {A : Type 0} → Act C A → Type 0
  Keeps act = (s : TeapTlsClient C) → (act s).1.established ≡ s.established

  Keeps-resume :
      {A B : Type 0} (r : Result FipsTlsError A) (next : A → Act C B)
      → ((a : A) → Keeps (next a))
      → Keeps (resume r next)
  Keeps-resume (ok a) next h s = h a s
  Keeps-resume (err e) next h s = refl

  Keeps-bind :
      {A B : Type 0} (first : Act C A) (next : A → Act C B)
      → Keeps first
      → ((a : A) → Keeps (next a))
      → Keeps (first >>= next)
  unfolding ◌>>=◌
  Keeps-bind first next f h s = Keeps-resume (first s).0 next h (first s).1 ∙ f s

  Keeps-if :
      {A : Type 0} (b : Bool) (x y : Act C A) → Keeps x → Keeps y → Keeps (if b then x else y)
  Keeps-if true x y hx hy = hx
  Keeps-if false x y hx hy = hy

module _ {C : Type 0} (lib : Connection C) where
  write_out-Keeps : (n : ℕ) (out : List ℕ) → Keeps (Client.write_out lib n out)
  unfolding Client.write_out
  write_out-Keeps zero out s = refl
  write_out-Keeps (suc n) out s =
      Keeps-if (ltb 0 (lib.queued s.conn)) _ (pure out)
        (Keeps-bind (Client.on_conn lib lib.write_tls)
          (λ bytes. Client.write_out lib n (out ++ bytes)) (λ s. refl)
          (λ bytes. write_out-Keeps n (out ++ bytes)))
        (λ s. refl) s

  pub take_outgoing-Keeps : Keeps (Client.take_outgoing lib)
  unfolding Client.take_outgoing
  take_outgoing-Keeps s = write_out-Keeps (lib.queued s.conn) [] s

  pub feed-Keeps : (n : ℕ) (rest : List ℕ) → Keeps (Client.feed lib n rest)
  unfolding Client.feed
  feed-Keeps n [] s = refl
  feed-Keeps zero (x ∷ rest) s = refl
  feed-Keeps (suc n) (x ∷ rest) s =
      Keeps-bind (Client.on_conn lib (lib.read_tls (x ∷ rest)))
        (Client.after_read lib (Client.feed lib n) (x ∷ rest)) (λ s. refl)
        (λ read.
          Keeps-if (read == 0) (pure tt) _ (λ s. refl)
            (Keeps-bind (Client.on_conn lib lib.process_new_packets) _ (λ s. refl)
              (λ _. feed-Keeps n _)))
        s

  after_chunk-Keeps :
      (again : List ℕ → Act C (List ℕ)) (out : List ℕ) (r : Result ReadError (List ℕ))
      → ((o : List ℕ) → Keeps (again o))
      → Keeps (Client.after_chunk lib again out r)
  after_chunk-Keeps again out (ok []) h s = refl
  after_chunk-Keeps again out (ok (x ∷ chunk)) h s = h (out ++ x ∷ chunk) s
  after_chunk-Keeps again out (err ReadError.other) h s = refl
  after_chunk-Keeps again out (err ReadError.would_block) h s = refl
  after_chunk-Keeps again out (err ReadError.unexpected_eof) h s = refl

  read_out-Keeps : (n : ℕ) (out : List ℕ) → Keeps (Client.read_out lib n out)
  unfolding Client.read_out
  read_out-Keeps zero out s = refl
  read_out-Keeps (suc n) out s =
      let (r, c) = lib.read Client.chunk_len s.conn in
      after_chunk-Keeps (Client.read_out lib n) out r (λ o. read_out-Keeps n o)
        (record s { conn = c })

  pub protect-Keeps : (plaintext : List ℕ) → Keeps (Client.protect lib plaintext)
  unfolding Client.protect Client.require_established
  protect-Keeps plaintext =
      Keeps-bind (Client.require_established lib) _ (λ s. refl)
        (λ _.
          Keeps-bind (Client.on_conn lib (lib.write_all plaintext)) _ (λ s. refl)
            (λ _. take_outgoing-Keeps))

  pub unprotect-Keeps : (records : List ℕ) → Keeps (Client.unprotect lib records)
  unfolding Client.unprotect Client.require_established Client.feed_incoming Client.drain
  unprotect-Keeps records =
      Keeps-bind (Client.require_established lib) _ (λ s. refl)
        (λ _.
          Keeps-bind (Client.feed_incoming lib records) (λ _. Client.drain lib)
            (feed-Keeps (length records) records)
            (λ _ s. read_out-Keeps (suc (lib.buffered s.conn)) [] s))
