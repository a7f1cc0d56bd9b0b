-- ===== src/Eaphost/Registry/Fetch.antt =====
-- crates/eaphost/src/session_registry.rs: the two calls by which the response is fetched.
use usg_supplicant.Common.{
  ℕ, List, [], ◌∷◌, Option, none, some, length, ◌≡◌, refl, ap, ◌∙◌, ◌<◌, arith, lt→ltb, le→ltb,
  ==_refl,
}
use usg_supplicant.Common.Assoc.{get, put, get-put}
use usg_supplicant.Eaphost.Peer
use usg_supplicant.Eaphost.Peer.{PeerSession}
use usg_supplicant.Eaphost.Registry
use usg_supplicant.Eaphost.Registry.{ResponseFetch, SessionRegistry, fetch_response}

put_same : {A : Type 0} (k : ℕ) (a : A) (m : List (ℕ × A)) → get k m ≡ some a → put k a m ≡ m
put_same k a [] h = refl
put_same k a ((j, b) ∷ m) h = ground (arith, put_same k a m)

module _ {D : Type 0} where
  -- `fetch_response` where the session is known.
  found :
      (r : SessionRegistry D) (handle : ℕ) (s : PeerSession D) (avail : ℕ)
      → get handle r.sessions ≡ some s
      → fetch_response handle avail r ≡ (
          let (f, t) = Registry.fetch_sized (Peer.response_len s) avail s in
          (f, record r { sessions = put handle t r.sessions }))
  unfolding fetch_response
  found r handle s avail h = rw h refl

  too_small_sized :
      (s : PeerSession D) (bytes : List ℕ) (avail : ℕ) (o : Option (List ℕ))
      → o ≡ some bytes
      → avail < length bytes
      → Registry.fetch_sized (Peer.len_of o) avail s ≡ (ResponseFetch.too_small (length bytes), s)
  too_small_sized s bytes avail o e short = rw (e, lt→ltb avail (length bytes) short) refl

  fitting_sized :
      (s : PeerSession D) (bytes : List ℕ) (o : Option (List ℕ))
      → s.pending_response ≡ some bytes
      → o ≡ some bytes
      → Registry.fetch_sized (Peer.len_of o) (length bytes) s
        ≡ (ResponseFetch.taken bytes, record s { pending_response = none })
  unfolding Peer.take_response
  fitting_sized s bytes o e f =
      rw (f, le→ltb (length bytes) (length bytes) (omega arith))
        (ap (λ x. (Registry.fetched x, record s { pending_response = none })) e)

  -- Where a session has a response longer than the buffer, `fetch_response` returns its length and
  -- changes nothing. A call with a buffer of that length returns the response, and from then on the
  -- handle has none, whatever the buffer.
  pub fetch_once :
      (r : SessionRegistry D) (handle : ℕ) (s : PeerSession D) (bytes : List ℕ) (avail again : ℕ)
      → get handle r.sessions ≡ some s
      → s.pending_response ≡ some bytes
      → avail < length bytes
      → (fetch_response handle avail r ≡ (ResponseFetch.too_small (length bytes), r))
        × ((fetch_response handle (length bytes) r).0 ≡ ResponseFetch.taken bytes)
        × ((fetch_response handle again (fetch_response handle (length bytes) r).1).0
            ≡ ResponseFetch.nothing)
  unfolding Peer.response_len
  fetch_once r handle s bytes avail again h e short =
      let used = record s { pending_response = none } in
      let after = record r { sessions = put handle used r.sessions } in
      let small : fetch_response handle avail r ≡ (
        ResponseFetch.too_small (length bytes),
        record r { sessions = put handle s r.sessions },
      ) =
        found r handle s avail h
        ∙ ap (λ p. (p.0, record r { sessions = put handle p.1 r.sessions }))
            (too_small_sized s bytes avail s.pending_response e short) in
      let fits : fetch_response handle (length bytes) r ≡ (ResponseFetch.taken bytes, after) =
        found r handle s (length bytes) h
        ∙ ap (λ p. (p.0, record r { sessions = put handle p.1 r.sessions }))
            (fitting_sized s bytes s.pending_response e e) in
      let left : get handle after.sessions ≡ some used =
        get-put handle handle used s r.sessions h ∙ rw (==_refl handle) refl in
      (
        small
            ∙ ap (λ m. (ResponseFetch.too_small (length bytes), record r { sessions = m }))
                (put_same handle s r.sessions h),
        ap (λ p. p.0) fits,
        rw fits (ap (λ p. p.0) (found after handle used again left)),
      )
