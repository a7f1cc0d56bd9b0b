-- ===== src/Eaphost/Registry.antt =====
-- crates/eaphost/src/session_registry.rs: the live sessions by handle. Every method takes the lock for
-- its whole run, so the methods of several threads are a sequence of calls.
pub mod Refinement
pub mod Handles
pub mod Fetch
use usg_supplicant.Common.{
  ℕ, Bool, List, [], ◌∷◌, Option, none, some, length, ltb, saturating_add, if◌then◌else◌, ◌==◌,
  is_some,
}
use usg_supplicant.Common.Assoc.{get, insert, put, remove}
use usg_supplicant.Eaphost.Peer
use usg_supplicant.Eaphost.Peer.{TeapStep, ProcessAction, AuthResult, PeerSession}

pub data ResponseFetch : Type 0 where
  nothing : ResponseFetch  -- `None`
  too_small : ℕ → ResponseFetch
  taken : List ℕ → ResponseFetch

-- `Inner`, the state under the lock.
pub record SessionRegistry (D : Type 0) : Type 0 where
  pub next : ℕ
  pub sessions : List (ℕ × PeerSession D)

unfoldable pub new : {D : Type 0} → SessionRegistry D
new = record { next = 1; sessions = [] }

abbrev pub fetched : Option (List ℕ) → ResponseFetch
fetched none = ResponseFetch.nothing
fetched (some bytes) = ResponseFetch.taken bytes

abbrev pub flatten : {A : Type 0} → Option (Option A) → Option A
flatten none = none
flatten (some o) = o

abbrev pub fetch_outcome : Option ResponseFetch → ResponseFetch
fetch_outcome none = ResponseFetch.nothing
fetch_outcome (some f) = f

module _ {D : Type 0} where
  unfoldable pub begin : PeerSession D → SessionRegistry D → ℕ × SessionRegistry D
  begin session r = (
    r.next,
    record { next = saturating_add r.next 1; sessions = insert r.next session r.sessions },
  )

  -- `i.sessions.get_mut(&handle)` and a method that changes the session.
  abbrev pub on_session :
      {A : Type 0}
      → Option (PeerSession D)
      → (PeerSession D → A × PeerSession D)
      → ℕ
      → SessionRegistry D
      → Option A × SessionRegistry D
  on_session none f handle r = (none, r)
  on_session (some s) f handle r =
      let (a, t) = f s in (some a, record r { sessions = put handle t r.sessions })

  unfoldable pub process :
      TeapStep D → ℕ → List ℕ → SessionRegistry D → Option ProcessAction × SessionRegistry D
  process api handle eap_request r =
      on_session (get handle r.sessions) (λ s. Peer.process api s eap_request) handle r

  unfoldable pub take_response : ℕ → SessionRegistry D → Option (List ℕ) × SessionRegistry D
  take_response handle r =
      let (o, t) = on_session (get handle r.sessions) Peer.take_response handle r in (flatten o, t)

  -- The response is consumed only where it fits.
  abbrev pub fetch_sized : Option ℕ → ℕ → PeerSession D → ResponseFetch × PeerSession D
  fetch_sized none avail s = (ResponseFetch.nothing, s)
  fetch_sized (some len) avail s =
      let (o, t) = Peer.take_response s in
      if ltb avail len then (ResponseFetch.too_small len, s) else (fetched o, t)

  unfoldable pub fetch_response : ℕ → ℕ → SessionRegistry D → ResponseFetch × SessionRegistry D
  fetch_response handle avail r =
      let (o, t) =
        on_session (get handle r.sessions) (λ s. fetch_sized (Peer.response_len s) avail s) handle
          r in
      (fetch_outcome o, t)

  abbrev pub result_of : Option (PeerSession D) → Option AuthResult
  result_of none = none
  result_of (some s) = s.result

  unfoldable pub result : ℕ → SessionRegistry D → Option AuthResult
  result handle r = result_of (get handle r.sessions)

  abbrev pub established_of : TeapStep D → Option (PeerSession D) → Option Bool
  established_of api none = none
  established_of api (some s) = some (Peer.established api s)

  unfoldable pub tunnel_established : TeapStep D → ℕ → SessionRegistry D → Option Bool
  tunnel_established api handle r = established_of api (get handle r.sessions)

  unfoldable pub end : ℕ → SessionRegistry D → Bool × SessionRegistry D
  end handle r = (is_some (get handle r.sessions), record r { sessions = remove handle r.sessions })

  abbrev pub len : SessionRegistry D → ℕ
  len r = length r.sessions

  abbrev pub is_empty : SessionRegistry D → Bool
  is_empty r = len r == 0
