-- ===== src/Fips/Secrets.antt =====
-- crates/fips-tls/src/backend.rs: the methods that give out secrets.
use usg_supplicant.Common.{
  ℕ, Bool, true, false, List, [], ◌∷◌, ◌++◌, Result, ok, err, if◌then◌else◌, length, ◌≡◌, refl, ap,
  sym, ◌∙◌, ◌⊎◌, inl, inr,
}
use usg_supplicant.Common.Exec.{resume, modify, ◌>>=◌}
use usg_supplicant.Fips.{FipsTlsError}
use usg_supplicant.Fips.Client
use usg_supplicant.Fips.Client.{Connection, Library, ReadError, TeapTlsClient, Act}
use usg_supplicant.Fips.Keeps.{take_outgoing-Keeps, feed-Keeps, protect-Keeps, unprotect-Keeps}

-- The methods that change a client.
pub data Method : Type 0 where
  take_outgoing finish_handshake : Method
  feed_incoming protect unprotect : List ℕ → Method

module _ {C : Type 0} (lib : Connection C) (libs : Library) where
  abbrev pub apply : Method → TeapTlsClient C → TeapTlsClient C
  apply Method.take_outgoing s = (Client.take_outgoing lib s).1
  apply Method.finish_handshake s = (Client.finish_handshake lib libs s).1
  apply (Method.feed_incoming records) s = (Client.feed_incoming lib records s).1
  apply (Method.protect plaintext) s = (Client.protect lib plaintext s).1
  apply (Method.unprotect records) s = (Client.unprotect lib records s).1

  unfoldable pub applied : TeapTlsClient C → List Method → TeapTlsClient C
  applied s [] = s
  applied s (m ∷ ms) = applied (apply m s) ms

  -- One of the calls was `finish_handshake`, and at that point the handshake of the client was over
  -- and the version, suite and group of its connection were let pass by the FIPS allow-list.
  pub record Passed (s : TeapTlsClient C) (ms : List Method) : Type 0 where
    pub before : List Method
    pub after : List Method
    pub split : ms ≡ before ++ Method.finish_handshake ∷ after
    pub over : lib.is_handshaking (applied s before).conn ≡ false
    pub allowed : Client.enforce_fips_parameters lib libs (applied s before) ≡ ok tt

  -- A method leaves the mark unset, or is a `finish_handshake` that passes.
  abbrev Marks : Method → TeapTlsClient C → TeapTlsClient C → Type 0
  Marks m s t =
      (t.established ≡ false)
      ⊎ ((m ≡ Method.finish_handshake)
          × (lib.is_handshaking s.conn ≡ false)
          × (Client.enforce_fips_parameters lib libs s ≡ ok tt))

  finish_handshake-Marks :
      (s : TeapTlsClient C)
      → s.established ≡ false
      → Marks Method.finish_handshake s (Client.finish_handshake lib libs s).1
  unfolding Client.finish_handshake ◌>>=◌
  finish_handshake-Marks s h = at_handshaking (lib.is_handshaking s.conn) refl
    where
      at_enforced :
          (r : Result FipsTlsError (Unit {0}))
          → Client.enforce_fips_parameters lib libs s ≡ r
          → lib.is_handshaking s.conn ≡ false
          → Marks Method.finish_handshake s
              (resume r (λ _. modify (λ s. record s { established = true })) s).1
      at_enforced (err x) f e = inl h
      at_enforced (ok u) f e = inr (refl, e, f)

      at_handshaking :
          (b : Bool)
          → lib.is_handshaking s.conn ≡ b
          → Marks Method.finish_handshake s
              (resume
                (Client.refuse_incomplete lib libs b s).0
                (λ _.
                  Client.enforced lib libs >>= λ _. modify (λ s. record s { established = true }))
                (Client.refuse_incomplete lib libs b s).1).1
      at_handshaking true e = inl h
      at_handshaking false e = at_enforced (Client.enforce_fips_parameters lib libs s) refl e

  apply-Marks : (m : Method) (s : TeapTlsClient C) → s.established ≡ false → Marks m s (apply m s)
  unfolding Client.feed_incoming
  apply-Marks Method.take_outgoing s h = inl (take_outgoing-Keeps lib s ∙ h)
  apply-Marks Method.finish_handshake s h = finish_handshake-Marks s h
  apply-Marks (Method.feed_incoming records) s h =
      inl (feed-Keeps lib (length records) records s ∙ h)
  apply-Marks (Method.protect plaintext) s h = inl (protect-Keeps lib plaintext s ∙ h)
  apply-Marks (Method.unprotect records) s h = inl (unprotect-Keeps lib records s ∙ h)

  applied-Passed :
      (s : TeapTlsClient C) (ms : List Method)
      → s.established ≡ false
      → ((applied s ms).established ≡ false) ⊎ Passed s ms
  unfolding applied
  applied-Passed s [] h = inl h
  applied-Passed s (m ∷ ms) h = first_call (applied-Passed (apply m s) ms) (apply-Marks m s h)
    where
      rest :
          ((applied (apply m s) ms).established ≡ false) ⊎ Passed (apply m s) ms
          → ((applied (apply m s) ms).established ≡ false) ⊎ Passed s (m ∷ ms)
      rest (inl e) = inl e
      rest (inr p) = inr (record {
        before = m ∷ p.before;
        after = p.after;
        split = ap (◌∷◌ m) p.split;
        over = p.over;
        allowed = p.allowed;
      })

      first_call :
          ((apply m s).established ≡ false
            → ((applied (apply m s) ms).established ≡ false) ⊎ Passed (apply m s) ms)
          → Marks m s (apply m s)
          → ((applied (apply m s) ms).established ≡ false) ⊎ Passed s (m ∷ ms)
      first_call ih (inl e) = rest (ih e)
      first_call ih (inr (same, o, a)) =
          inr (record {
            before = [];
            after = ms;
            split = ap (λ x. x ∷ ms) same;
            over = o;
            allowed = a;
          })

  -- All the methods that give out secrets refuse, and change nothing.
  pub record AreRefused (s : TeapTlsClient C) (bytes : List ℕ) (len : ℕ) : Type 0 where
    pub protects : Client.protect lib bytes s ≡ (err FipsTlsError.not_established, s)
    pub unprotects : Client.unprotect lib bytes s ≡ (err FipsTlsError.not_established, s)
    pub seeds : Client.session_key_seed lib s ≡ err FipsTlsError.not_established
    pub exports : Client.export_keying_material lib bytes len s ≡ err FipsTlsError.not_established
    pub names_mac : Client.negotiated_mac lib libs s ≡ err FipsTlsError.not_established

  shut :
      {B : Type 0} (next : Unit {0} → Act C B) (s : TeapTlsClient C) (b : Bool)
      → b ≡ false
      → resume (if b then ok tt else err FipsTlsError.not_established) next s
        ≡ (err FipsTlsError.not_established, s)
  shut next s b e = rw e refl

  abbrev established_of : Result FipsTlsError (TeapTlsClient C) → Bool
  established_of (ok s) = s.established
  established_of (err e) = false

  refused :
      (s : TeapTlsClient C) (bytes : List ℕ) (len : ℕ)
      → s.established ≡ false
      → AreRefused s bytes len
  unfolding Client.protect Client.unprotect Client.session_key_seed Client.export_keying_material
      Client.negotiated_mac Client.require_established ◌>>=◌
  refused s bytes len e = record {
    protects = shut _ s s.established e;
    unprotects = shut _ s s.established e;
    seeds = rw e refl;
    exports = rw e refl;
    names_mac = rw e refl;
  }

  new_gated :
      (connected : Result FipsTlsError C) (s : TeapTlsClient C)
      → Client.connect connected ≡ ok s
      → s.established ≡ false
  unfolding Client.connect
  new_gated (ok c) s e = ap established_of (sym e)
  new_gated (err x) s e = let no : ⊥ = cc e in elim no [ ]

  -- After any methods on a new client, in any order, either all the methods that give out secrets
  -- return `NotEstablished` and change nothing, or one of the calls was a `finish_handshake` at
  -- which the handshake was over and the FIPS allow-list let the connection's version, suite and
  -- group pass.
  pub secrets_gated :
      (connected : Result FipsTlsError C) (s : TeapTlsClient C) (ms : List Method) (bytes : List ℕ)
      (len : ℕ)
      → Client.connect connected ≡ ok s
      → AreRefused (applied s ms) bytes len ⊎ Passed s ms
  secrets_gated connected s ms bytes len e = elim (applied-Passed s ms (new_gated connected s e)) [
    | inl closed ↦ inl (refused (applied s ms) bytes len closed)
    | inr p ↦ inr p
  ]
