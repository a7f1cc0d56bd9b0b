-- ===== src/Eaphost/Registry/Refinement.antt =====
-- crates/eaphost/src/session_registry.rs: the registry and a finite map from handles to sessions.
use mathlib.Core.Path.{fun_ext}
use usg_supplicant.Common.{
  ℕ, Bool, List, [], ◌∷◌, Option, none, some, saturating_add, if◌then◌else◌, ◌==◌, is_some, ◌≡◌,
  refl, ap,
}
use usg_supplicant.Common.Assoc.{get, get-insert, get-put, get-remove}
use usg_supplicant.Eaphost.Peer
use usg_supplicant.Eaphost.Peer.{TeapStep, ProcessAction, AuthResult, PeerSession}
use usg_supplicant.Eaphost.Registry
use usg_supplicant.Eaphost.Registry.{ResponseFetch, SessionRegistry, flatten, fetch_outcome}

-- The methods, with their arguments, and what they return.
pub data Op (D : Type 0) : Type 0 where
  begin : PeerSession D → Op D
  process : ℕ → List ℕ → Op D
  take_response : ℕ → Op D
  fetch_response : ℕ → ℕ → Op D
  result : ℕ → Op D
  tunnel_established : ℕ → Op D
  end : ℕ → Op D

pub data Reply : Type 0 where
  handle : ℕ → Reply
  action : Option ProcessAction → Reply
  response : Option (List ℕ) → Reply
  fetch : ResponseFetch → Reply
  verdict : Option AuthResult → Reply
  established : Option Bool → Reply
  existed : Bool → Reply

pub record Directory (D : Type 0) : Type 0 where
  pub next : ℕ
  pub live : ℕ → Option (PeerSession D)

abbrev pub view : {D : Type 0} → SessionRegistry D → Directory D
view r = record { next = r.next; live = λ h. get h r.sessions }

abbrev pub both : {D X : Type 0} → X × SessionRegistry D → X × Directory D
both (x, r) = (x, view r)

abbrev pub wrap : {S X Y : Type 0} → (X → Y) → X × S → Y × S
wrap c (x, s) = (c x, s)

module _ {D : Type 0} where
  abbrev pub set :
      ℕ → Option (PeerSession D) → (ℕ → Option (PeerSession D)) → ℕ → Option (PeerSession D)
  set h o live i = if i == h then o else live i

  -- The promise of a method on one session: the reply comes from that session, and no other changes.
  abbrev pub at_session :
      {X : Type 0}
      → Option (PeerSession D)
      → (PeerSession D → X × PeerSession D)
      → ℕ
      → Directory D
      → Option X × Directory D
  at_session none f h s = (none, s)
  at_session (some p) f h s =
      let (x, q) = f p in (some x, record s { live = set h (some q) s.live })

  abbrev pub reading : {X : Type 0} → X → PeerSession D → X × PeerSession D
  reading x p = (x, p)

  module _ (api : TeapStep D) where
    abbrev pub promise : Op D → Directory D → Reply × Directory D
    promise (begin p) s = (
      Reply.handle s.next,
      record { next = saturating_add s.next 1; live = set s.next (some p) s.live },
    )
    promise (process h bytes) s =
        wrap Reply.action (at_session (s.live h) (λ p. Peer.process api p bytes) h s)
    promise (take_response h) s =
        wrap (λ o. Reply.response (flatten o)) (at_session (s.live h) Peer.take_response h s)
    promise (fetch_response h avail) s =
        wrap (λ o. Reply.fetch (fetch_outcome o))
          (at_session (s.live h) (λ p. Registry.fetch_sized (Peer.response_len p) avail p) h s)
    promise (result h) s = (Reply.verdict (Registry.result_of (s.live h)), s)
    promise (tunnel_established h) s =
        (Reply.established (Registry.established_of api (s.live h)), s)
    promise (end h) s = (Reply.existed (is_some (s.live h)), record s { live = set h none s.live })

    abbrev pub perform : Op D → SessionRegistry D → Reply × SessionRegistry D
    perform (begin p) r = wrap Reply.handle (Registry.begin p r)
    perform (process h bytes) r = wrap Reply.action (Registry.process api h bytes r)
    perform (take_response h) r = wrap Reply.response (Registry.take_response h r)
    perform (fetch_response h avail) r = wrap Reply.fetch (Registry.fetch_response h avail r)
    perform (result h) r = (Reply.verdict (Registry.result h r), r)
    perform (tunnel_established h) r = (Reply.established (Registry.tunnel_established api h r), r)
    perform (end h) r = wrap Reply.existed (Registry.end h r)

    unfoldable pub promised : List (Op D) → Directory D → List Reply × Directory D
    promised [] s = ([], s)
    promised (op ∷ ops) s = let (x, t) = promise op s in let (xs, u) = promised ops t in (x ∷ xs, u)

    unfoldable pub performed : List (Op D) → SessionRegistry D → List Reply × SessionRegistry D
    performed [] r = ([], r)
    performed (op ∷ ops) r =
        let (x, t) = perform op r in let (xs, u) = performed ops t in (x ∷ xs, u)

  on_session-view :
      {X : Type 0} (o : Option (PeerSession D)) (f : PeerSession D → X × PeerSession D) (h : ℕ)
      (r : SessionRegistry D)
      → get h r.sessions ≡ o
      → both (Registry.on_session o f h r) ≡ at_session o f h (view r)
  on_session-view none f h r e = refl
  on_session-view (some p) f h r e =
      let (x, q) = f p in
      ap (λ live. (some x, record { next = r.next; live = live }))
        (fun_ext (λ i. get-put i h q p r.sessions e))

  perform-view :
      (api : TeapStep D) (op : Op D) (r : SessionRegistry D)
      → both (perform api op r) ≡ promise api op (view r)
  unfolding Registry.begin Registry.process Registry.take_response Registry.fetch_response
      Registry.result Registry.tunnel_established Registry.end
  perform-view api (begin p) r =
      ap (λ live. (Reply.handle r.next, record { next = saturating_add r.next 1; live = live }))
        (fun_ext (λ i. get-insert i r.next p r.sessions))
  perform-view api (process h bytes) r =
      ap (wrap Reply.action)
        (on_session-view (get h r.sessions) (λ p. Peer.process api p bytes) h r refl)
  perform-view api (take_response h) r =
      ap (wrap (λ o. Reply.response (flatten o)))
        (on_session-view (get h r.sessions) Peer.take_response h r refl)
  perform-view api (fetch_response h avail) r = ap (wrap (λ o. Reply.fetch (fetch_outcome o))) (
      on_session-view (get h r.sessions) (λ p. Registry.fetch_sized (Peer.response_len p) avail p) h
        r refl)
  perform-view api (result h) r = refl
  perform-view api (tunnel_established h) r = refl
  perform-view api (end h) r =
      ap
        (λ live.
          (Reply.existed (is_some (get h r.sessions)), record { next = r.next; live = live }))
        (fun_ext (λ i. get-remove i h r.sessions))

  -- Every sequence of calls on a registry returns what the same calls on a map from handles to
  -- sessions return, and leaves the map that they leave: a call with a handle changes at most the
  -- session of that handle, and one with an unknown handle changes nothing and reports that.
  pub registry_refines :
      (api : TeapStep D) (ops : List (Op D)) (r : SessionRegistry D)
      → both (performed api ops r) ≡ promised api ops (view r)
  unfolding performed promised
  registry_refines api [] r = refl
  registry_refines api (op ∷ ops) r =
      let (x, t) = perform api op r in
      rw (← perform-view api op r) (ap (λ p. (x ∷ p.0, p.1)) (registry_refines api ops t))
