-- ===== src/Supplicant/Ends.antt =====
-- crates/supplicant/src/driver.rs: how long a server can keep a driver answering.
use mathlib.Core.WellFounded.{Acc}
use usg_supplicant.Common.{
  ℕ, zero, suc, not, ◌&&◌, List, [], ◌∷◌, Option, none, some, Result, ok, err, ◌<◌, ◌≡◌, ◌⊎◌, inl,
  inr, refl, subst, Bool-cases, is_empty, length, arith, true, false, Bool, ok_or,
}
use usg_supplicant.Common.Exec.{Post, pure, ◌>>=◌}
use usg_supplicant.Fips.{Tunnel}
use usg_supplicant.Eap
use usg_supplicant.Eap.{EapPacket, EapCode}
use usg_supplicant.Outer.{TeapOuter, teap_eap_type, is_ack, parse}
use usg_supplicant.Session.Types.{InnerStep, Outcome}
use usg_supplicant.Supplicant.Types.{
  DriverStep, finished, Phase, DriverError, decode, protocol, TeapDriver, not_teap,
  success_before_result,
}
use usg_supplicant.Supplicant.Rules.{bind-lift, bind-require}
use usg_supplicant.Supplicant.Driver
use usg_supplicant.Supplicant.Measure.{stage, Below, Kept, pop_fragment-Kept}
use usg_supplicant.Supplicant.Rounds.{dispatch-Below}

-- An answer lowers the stage, or keeps it and takes a fragment from the queue.
abbrev Lower : (k n : ℕ) {T I : Type 0} → DriverStep → TeapDriver T I → Type 0
Lower k n (DriverStep.respond bytes) d = (stage d < k) ⊎ ((stage d ≡ k) × (length d.out_queue < n))
Lower k n (DriverStep.finished send outcome) d = Unit {0}

-- One request that the driver answers: `step` returns `Ok(DriverStep::Respond(..))`.
pub record Responds {T I : Type 0} (tunnel : Tunnel T) (process : I → List ℕ → InnerStep × I)
    (d' d : TeapDriver T I) : Type 0 where
  pub request : List ℕ
  pub bytes : List ℕ
  pub stepped : Driver.step tunnel process request d ≡ (ok (DriverStep.respond bytes), d')

Lower-of_Below :
    {T I : Type 0} (k n : ℕ) (p : Result DriverError DriverStep × TeapDriver T I)
    → Post (Below k) p
    → Post (Lower k n) p
Lower-of_Below k n (ok (DriverStep.respond bytes), d) h = inl h
Lower-of_Below k n (ok (DriverStep.finished send outcome), d) h = tt
Lower-of_Below k n (err e, d) h = tt

Lower-of_Kept :
    {T I : Type 0} (k n : ℕ) (p : Result DriverError DriverStep × TeapDriver T I)
    → Post (Kept k n) p
    → Post (Lower k (suc n)) p
Lower-of_Kept k n (ok (DriverStep.respond bytes), d) (same, len) = inr (same, omega arith)
Lower-of_Kept k n (ok (DriverStep.finished send outcome), d) h = tt
Lower-of_Kept k n (err e, d) h = tt

module _ {T I : Type 0} (tunnel : Tunnel T) (process : I → List ℕ → InnerStep × I) where
  next_out_fragment-Lower :
      (d : TeapDriver T I) (frags : List TeapOuter)
      → is_empty frags ≡ false
      → Post (Lower (stage d) (length frags)) (Driver.pop_fragment frags d)
  next_out_fragment-Lower d [] h = let no : ⊥ = cc h in elim no [ ]
  next_out_fragment-Lower d (outer ∷ frags) h =
      Lower-of_Kept (stage d) (length frags) (Driver.pop_fragment (outer ∷ frags) d)
        (pop_fragment-Kept outer frags d)

  queued : (a b : Bool) → (a && not b) ≡ true → b ≡ false
  queued true false h = refl
  queued true true h = let no : ⊥ = cc h in elim no [ ]
  queued false b h = let no : ⊥ = cc h in elim no [ ]

  on_outer-Lower :
      (outer : TeapOuter) (d : TeapDriver T I)
      → Post (Lower (stage d) (length d.out_queue)) (Driver.on_outer tunnel process outer d)
  unfolding Driver.on_outer Driver.next_out_fragment
  on_outer-Lower outer d = elim (Bool-cases (is_ack outer && not (is_empty d.out_queue))) [
    | inl e ↦
        rw e
          (next_out_fragment-Lower d d.out_queue (queued (is_ack outer) (is_empty d.out_queue) e))
    | inr e ↦ rw e (
        Lower-of_Below (stage d) (length d.out_queue)
          (Driver.dispatch tunnel process d.phase outer d)
          (dispatch-Below tunnel process d.phase outer d refl))
  ]

  on_packet-Lower :
      (pkt : EapPacket) (code : EapCode) (d : TeapDriver T I)
      → Post (Lower (stage d) (length d.out_queue)) (Driver.on_packet tunnel process pkt code d)
  unfolding Driver.on_packet Driver.on_request Driver.on_success Driver.take_pending ◌>>=◌
  on_packet-Lower pkt EapCode.failure d = tt
  on_packet-Lower pkt EapCode.success d = at_pending d.pending
    where
      at_pending :
          (o : Option Outcome)
          → Post (Lower (stage d) (length d.out_queue)) (
              ((λ d. (ok_or o (protocol success_before_result), record d { pending = none }))
                  >>= λ outcome. pure (finished none outcome))
                (record d { phase = Phase.terminated }))
      at_pending none = tt
      at_pending (some outcome) = tt
  on_packet-Lower pkt EapCode.request d =
      let Q : DriverStep → TeapDriver T I → Type 0 = Lower (stage d) (length d.out_queue) in
      bind-require Q d (Driver.is_type teap_eap_type pkt.type_) not_teap _ (λ _.
        bind-lift _ Q (record d { last_id = pkt.id }) decode (parse pkt.body)
          (λ outer _. on_outer-Lower outer (record d { last_id = pkt.id })))
  on_packet-Lower pkt EapCode.response d = tt
  on_packet-Lower pkt (EapCode.unknown v) d = tt

  step-Lower :
      (request : List ℕ) (d : TeapDriver T I)
      → Post (Lower (stage d) (length d.out_queue)) (Driver.step tunnel process request d)
  unfolding Driver.step
  step-Lower request d =
      bind-lift _ (Lower (stage d) (length d.out_queue)) d decode (Eap.decode request)
        (λ pkt _. on_packet-Lower pkt pkt.code d)

  Responds-Lower :
      (d' d : TeapDriver T I)
      → Responds tunnel process d' d
      → (stage d' < stage d) ⊎ ((stage d' ≡ stage d) × (length d'.out_queue < length d.out_queue))
  Responds-Lower d' d r =
      subst (λ p. Post (Lower (stage d) (length d.out_queue)) p) r.stepped (step-Lower r.request d)

  -- On the stage, and within one stage on the queue.
  Acc-bounded :
      (k n : ℕ) (d : TeapDriver T I)
      → (stage d < k) ⊎ ((stage d ≡ k) × (length d.out_queue < n))
      → Acc (Responds tunnel process) d
  Acc-bounded zero zero d h = absurd (omega arith)
  Acc-bounded (suc k) zero d h = Acc-bounded k (suc (length d.out_queue)) d (omega arith)
  Acc-bounded k (suc n) d h =
      Acc.intro d (λ d' r. let l = Responds-Lower d' d r in Acc-bounded k n d' (omega arith))

  -- No server can have the driver answer requests without end: every sequence of steps that each
  -- return `Respond` is finite, from any state, whatever the tunnel and the inner method do.
  pub Acc-Responds : (d : TeapDriver T I) → Acc (Responds tunnel process) d
  Acc-Responds d = Acc-bounded (stage d) (suc (length d.out_queue)) d (inr (refl, omega arith))
