-- ===== src/Supplicant/Inner/Verdict.antt =====
-- crates/supplicant/src/inner_tls.rs: whole runs of the inner method.
use usg_supplicant.Common.{ℕ, true, List, [], ◌∷◌, Result, ok, err, ◌≡◌, refl, ap, sym, subst}
use usg_supplicant.Common.Exec.{Post, ◌>>=◌}
use usg_supplicant.Fips.{FipsTlsError, Tunnel}
use usg_supplicant.Session.Types.{InnerStep}
use usg_supplicant.Supplicant.Inner
use usg_supplicant.Supplicant.Inner.{InnerTlsError, State, EapTlsInner, is_over, process, new}
use usg_supplicant.Supplicant.Inner.Completes.{try_process-Good}
use usg_supplicant.Supplicant.Inner.Completion.{Completed, InnerSound, StateSound, Good}

module _ {T : Type 0} (tunnel : Tunnel T) where
  -- The packets of the server, one after the other.
  unfoldable pub processed : EapTlsInner T → List (List ℕ) → EapTlsInner T
  processed s [] = s
  processed s (eap ∷ eaps) = processed (process tunnel s eap).1 eaps

  abbrev Settled : InnerStep × EapTlsInner T → Type 0
  Settled (step, s) = Good tunnel step s

  settle-Settled :
      (p : Result InnerTlsError InnerStep × EapTlsInner T)
      → Post (Good tunnel) p
      → Settled (Inner.settle tunnel p)
  settle-Settled (ok step, s) h = h
  settle-Settled (err e, s) h = refl

  process-Settled :
      (s : EapTlsInner T) (eap : List ℕ) → InnerSound tunnel s → Settled (process tunnel s eap)
  unfolding process
  process-Settled s eap h =
      settle-Settled (Inner.try_process tunnel eap s) (try_process-Good tunnel eap s h)

  Settled-InnerSound : (p : InnerStep × EapTlsInner T) → Settled p → InnerSound tunnel p.1
  Settled-InnerSound (InnerStep.respond bytes, s) h = h
  Settled-InnerSound (InnerStep.finished imsk, s) h =
      subst (λ x. StateSound tunnel x s.tunnel) (sym (h.1)) tt
  Settled-InnerSound (InnerStep.failed, s) h = subst (λ x. StateSound tunnel x s.tunnel) (sym h) tt

  processed-InnerSound :
      (s : EapTlsInner T) (eaps : List (List ℕ))
      → InnerSound tunnel s
      → InnerSound tunnel (processed s eaps)
  unfolding processed
  processed-InnerSound s [] h = h
  processed-InnerSound s (eap ∷ eaps) h =
      processed-InnerSound (process tunnel s eap).1 eaps
        (Settled-InnerSound (process tunnel s eap) (process-Settled s eap h))

  abbrev MadeSound : Result InnerTlsError (EapTlsInner T) → Type 0
  MadeSound (ok s) = InnerSound tunnel s
  MadeSound (err e) = Unit {0}

  new-MadeSound :
      (connected : Result FipsTlsError T) (max_fragment : ℕ)
      → MadeSound (new connected max_fragment)
  unfolding new
  new-MadeSound (ok t) max_fragment = tt
  new-MadeSound (err e) max_fragment = tt

  over_fails :
      (s : EapTlsInner T) (eap : List ℕ)
      → is_over s.state ≡ true
      → process tunnel s eap ≡ (InnerStep.failed, record s { state = State.failed })
  unfolding process Inner.try_process ◌>>=◌
  over_fails s eap e = rw e refl

  -- It stays over.
  processed-over :
      (s : EapTlsInner T) (eaps : List (List ℕ))
      → is_over s.state ≡ true
      → is_over (processed s eaps).state ≡ true
  unfolding processed
  processed-over s [] e = e
  processed-over s (eap ∷ eaps) e =
      processed-over (process tunnel s eap).1 eaps
        (ap (λ p. is_over p.1.state) (over_fails s eap e))

  -- Over any packets from the server, the inner method is done only with octets that are the first 32
  -- of the key which its tunnel exports then, in the state in which a `finish_handshake` that
  -- returned had left it; from then on, after any further packets, every packet fails.
  pub inner_done :
      (connected : Result FipsTlsError T) (max_fragment : ℕ) (s : EapTlsInner T)
      (eaps more : List (List ℕ)) (eap next imsk : List ℕ)
      → new connected max_fragment ≡ ok s
      → (process tunnel (processed s eaps) eap).0 ≡ InnerStep.finished imsk
      → Completed tunnel (process tunnel (processed s eaps) eap).1.tunnel imsk
        × ((process tunnel (processed (process tunnel (processed s eaps) eap).1 more) next).0
            ≡ InnerStep.failed)
  inner_done connected max_fragment s eaps more eap next imsk e r =
      let (c, d) : Good tunnel (InnerStep.finished imsk) (process tunnel (processed s eaps) eap).1 =
        subst (λ x. Good tunnel x (process tunnel (processed s eaps) eap).1) r
          (process-Settled (processed s eaps) eap (
            processed-InnerSound s eaps
              (subst (λ x. MadeSound x) e (new-MadeSound connected max_fragment)))) in
      let end = (process tunnel (processed s eaps) eap).1 in
      (
        c,
        ap (λ p. p.0)
            (over_fails (processed end more) next
              (processed-over end more (ap (λ x. is_over x) d))),
      )
