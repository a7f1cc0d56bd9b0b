-- ===== src/Eaphost/Host/Keeps.antt =====
-- crates/eaphost/src/peer.rs: every live session, over any calls.
use mathlib.Core.List.{Memᴰ}
use mathlib.Core.List.Memᴰ.{head, tail}
use usg_supplicant.Common.{
  ℕ, Bool, true, false, List, [], ◌∷◌, Option, none, some, if◌then◌else◌, ltb, ◌==◌, ◌≡◌, refl, sym,
  subst, ◌∙◌,
}
use usg_supplicant.Common.Assoc.{get, insert, put, remove, get-insert, get-put, get-remove}
use usg_supplicant.Eaphost.Peer
use usg_supplicant.Eaphost.Peer.{TeapStep, PeerSession, ProcessAction}
use usg_supplicant.Eaphost.Registry
use usg_supplicant.Eaphost.Registry.{SessionRegistry, ResponseFetch}
use usg_supplicant.Eaphost.Host
use usg_supplicant.Eaphost.Host.{StatusMeta, Host, World, Platform}
use usg_supplicant.Eaphost.Host.Entry
use usg_supplicant.Eaphost.Host.Entry.{
  Prepared, Entry, begins, processes, fetches, asks, ends, prepare, entered, run,
}
use usg_supplicant.Status
use usg_supplicant.Status.{AuthState, AuthStatus}

module _ {D : Type 0} where
  recall-registry : (o : Option AuthStatus) (h : Host D) → (Host.recall o h).registry ≡ h.registry
  recall-registry none h = refl
  recall-registry (some prev) h = refl

  activate-registry :
      (i : Status.Identity) (c : Host.CertInfo) (h : Host D)
      → (Host.activate i c h).registry ≡ h.registry
  activate-registry Status.Identity.machine c h = refl
  activate-registry Status.Identity.user c h = refl

  -- Publishing the status leaves the sessions alone.
  pub publish_status-registry :
      (w : World) (handle : ℕ) (state : AuthState) (detail : List ℕ) (h : Host D)
      → (Host.publish_status w handle state detail h).registry ≡ h.registry
  unfolding Host.publish_status
  publish_status-registry w handle state detail h = at_meta (get handle h.status_meta) w.secured
    where
      at_meta :
          (o : Option StatusMeta) (secured : Bool)
          → (Host.publish_meta (record w { secured = secured }) o state detail h).registry
            ≡ h.registry
      at_meta none secured = refl
      at_meta (some meta) false = refl
      at_meta (some meta) true =
          let prev = Host.read_status w h.file in
          activate-registry meta.identity (Host.active_cert meta) (Host.recall prev h)
          ∙ recall-registry prev h

module _ {D : Type 0} (P : PeerSession D → Type 0) where
  abbrev pub AllLive : List (ℕ × PeerSession D) → Type 0
  AllLive m = (i : ℕ) (s : PeerSession D) → get i m ≡ some s → P s

  insert-AllLive :
      (k : ℕ) (s : PeerSession D) (m : List (ℕ × PeerSession D))
      → P s
      → AllLive m
      → AllLive (insert k s m)
  insert-AllLive k s m p h i t e = at_key (i == k) (sym (get-insert i k s m) ∙ e)
    where
      at_key : (b : Bool) → (if b then some s else get i m) ≡ some t → P t
      at_key true e = let same : s ≡ t = cc e in subst P same p
      at_key false e = h i t e

  put-AllLive :
      (k : ℕ) (s old : PeerSession D) (m : List (ℕ × PeerSession D))
      → get k m ≡ some old
      → P s
      → AllLive m
      → AllLive (put k s m)
  put-AllLive k s old m there p h i t e = at_key (i == k) (sym (get-put i k s old m there) ∙ e)
    where
      at_key : (b : Bool) → (if b then some s else get i m) ≡ some t → P t
      at_key true e = let same : s ≡ t = cc e in subst P same p
      at_key false e = h i t e

  remove-AllLive : (k : ℕ) (m : List (ℕ × PeerSession D)) → AllLive m → AllLive (remove k m)
  remove-AllLive k m h i t e = at_key (i == k) (sym (get-remove i k m) ∙ e)
    where
      at_key : (b : Bool) → (if b then none else get i m) ≡ some t → P t
      at_key true e = let no : ⊥ = cc e in elim no [ ]
      at_key false e = h i t e

  -- A method of a session that keeps `P`.
  on_session-AllLive :
      {A : Type 0} (f : PeerSession D → A × PeerSession D) (k : ℕ) (r : SessionRegistry D)
      → ((s : PeerSession D) → P s → P (f s).1)
      → AllLive r.sessions
      → AllLive (Registry.on_session (get k r.sessions) f k r).1.sessions
  on_session-AllLive f k r keeps h = at_session (get k r.sessions) refl
    where
      at_session :
          (o : Option (PeerSession D))
          → get k r.sessions ≡ o
          → AllLive (Registry.on_session o f k r).1.sessions
      at_session none e = h
      at_session (some s) e = put-AllLive k (f s).1 s r.sessions e (keeps s (h k s e)) h

module _ {D : Type 0} (os : Platform D) (api : TeapStep D) (P : PeerSession D → Type 0)
    (processed : (s : PeerSession D) (eap : List ℕ) → P s → P (Peer.process api s eap).1)
    (taken : (s : PeerSession D) → P s → P (Peer.take_response s).1) where
  published-AllLive :
      (w : World) (handle : ℕ) (state : AuthState) (detail : List ℕ) (h : Host D)
      → AllLive P h.registry.sessions
      → AllLive P (Host.publish_status w handle state detail h).registry.sessions
  published-AllLive w handle state detail h live =
      subst (λ r. AllLive P r.sessions) (sym (publish_status-registry w handle state detail h)) live

  progress-AllLive :
      (w : World) (handle : ℕ) (o : Option ProcessAction) (h : Host D)
      → AllLive P h.registry.sessions
      → AllLive P (Entry.report_progress os api w handle o h).registry.sessions
  progress-AllLive w handle none h live = live
  progress-AllLive w handle (some ProcessAction.finished) h live = live
  progress-AllLive w handle (some ProcessAction.respond) h live =
      published-AllLive w handle _ [] h live

  fetch-keeps :
      (avail : ℕ) (o : Option ℕ) (s : PeerSession D) → P s → P (Registry.fetch_sized o avail s).1
  fetch-keeps avail none s p = p
  fetch-keeps avail (some len) s p = at_size (ltb avail len)
    where
      at_size :
          (b : Bool)
          → (let r : ResponseFetch × PeerSession D =
                if b
                then (ResponseFetch.too_small len, s)
                else (Registry.fetched (Peer.take_response s).0, (Peer.take_response s).1) in
              P r.1)
      at_size true = p
      at_size false = taken s p

  -- What the driver of a new session brings along.
  abbrev Started : (World → List ℕ → Type 0) → Type 0
  Started Begun =
      (w : World) (blob : List ℕ) (p : Prepared D)
      → Begun w blob
      → prepare os w blob ≡ some p
      → P (Peer.new p.kind p.driver)

  entered-AllLive :
      (Begun : World → List ℕ → Type 0) (h : Host D) (e : Entry)
      → Started Begun
      → ((w : World) (blob : List ℕ) → e ≡ begins w blob → Begun w blob)
      → AllLive P h.registry.sessions
      → AllLive P (entered os api h e).registry.sessions
  unfolding Entry.begin_session Entry.process_request_packet Entry.get_response_packet
      Entry.get_result Entry.end_session Registry.begin Registry.process Registry.fetch_response
      Registry.end
  entered-AllLive Begun h (begins w blob) start begun live = at_prepared (prepare os w blob) refl
    where
      at_prepared :
          (o : Option (Prepared D))
          → prepare os w blob ≡ o
          → AllLive P (Entry.register os w o h).1.registry.sessions
      at_prepared none e = live
      at_prepared (some p) e = published-AllLive w h.registry.next AuthState.connecting [] _ (
          insert-AllLive P h.registry.next (Peer.new p.kind p.driver) h.registry.sessions
            (start w blob p (begun w blob refl) e) live)
  entered-AllLive Begun h (processes w handle eap) start begun live =
      at_size (Entry.packet_fits os eap)
    where
      at_size :
          (b : Bool)
          → (let r : Option ProcessAction × Host D =
                if b
                then (let (action, r) = Registry.process api handle eap h.registry in
                    (
                      action,
                      Entry.report_progress os api w handle action (record h { registry = r }),
                    ))
                else (none, h) in
              AllLive P r.1.registry.sessions)
      at_size true =
          progress-AllLive w handle (Registry.process api handle eap h.registry).0
            (record h { registry = (Registry.process api handle eap h.registry).1 })
            (on_session-AllLive P (λ s. Peer.process api s eap) handle h.registry
              (λ s p. processed s eap p) live)
      at_size false = live
  entered-AllLive Begun h (fetches handle avail) start begun live =
      let n : ℕ = elim avail [ none ↦ 0 | some n ↦ n ] in
      on_session-AllLive P (λ s. Registry.fetch_sized (Peer.response_len s) n s) handle h.registry
        (λ s p. fetch-keeps n (Peer.response_len s) s p) live
  entered-AllLive Begun h (asks w handle) start begun live = published-AllLive w handle _ _ h live
  entered-AllLive Begun h (ends handle) start begun live =
      remove-AllLive P handle h.registry.sessions live

  run-AllLive :
      (Begun : World → List ℕ → Type 0) (h : Host D) (es : List Entry)
      → Started Begun
      → ((w : World) (blob : List ℕ) → Memᴰ (begins w blob) es → Begun w blob)
      → AllLive P h.registry.sessions
      → AllLive P (run os api h es).registry.sessions
  unfolding run
  run-AllLive Begun h [] start begun live = live
  run-AllLive Begun h (e ∷ es) start begun live =
      run-AllLive Begun (entered os api h e) es start (λ w blob m. begun w blob (tail m))
        (entered-AllLive Begun h e start (λ w blob same. begun w blob (head (sym same))) live)

  -- Where new sessions have a property that the methods keep, every live session has it, whatever
  -- calls were made of a new host.
  pub run-new-AllLive :
      (es : List Entry)
      → Started (λ w blob. Memᴰ (begins w blob) es)
      → AllLive P (run os api Host.new es).registry.sessions
  unfolding Host.new Registry.new
  run-new-AllLive es start =
      run-AllLive (λ w blob. Memᴰ (begins w blob) es) Host.new es start (λ w blob m. m)
        (λ i s e. let no : ⊥ = cc e in elim no [ ])
