-- ===== src/Examples/Eaphost.antt =====
-- Runs of the registry of sessions and of the connection data.
use usg_supplicant.Common.{
  ℕ, suc, ◌+◌, ◌<◌, ◌≤◌, Bool, true, false, List, [], ◌∷◌, ◌++◌, none, some, ok, err, length,
  if◌then◌else◌, max_64, ◌≡◌, refl, arith,
}
use usg_supplicant.Common.Assoc.{get}
use usg_supplicant.Supplicant.Types.{DriverStep}
use usg_supplicant.Eaphost.Peer
use usg_supplicant.Eaphost.Peer.{SessionKind, TeapStep, ProcessAction, PeerSession}
use usg_supplicant.Eaphost.Registry
use usg_supplicant.Eaphost.Registry.{
  ResponseFetch, SessionRegistry, begin, end, len, fetch_response,
}
use usg_supplicant.Eaphost.Registry.Refinement.{
  Op, Reply, performed, promised, both, view, registry_refines,
}
use usg_supplicant.Eaphost.Registry.Handles.{handles_fresh}
use usg_supplicant.Eaphost.Registry.Fetch.{fetch_once}
use usg_supplicant.Eaphost.Config
use usg_supplicant.Eaphost.Config.{ConfigError, SessionConfigBlob, to_bytes, from_bytes}
use usg_supplicant.Eaphost.Config.RoundTrip.{IsValid, from_bytes-to_bytes}

-- A driver that answers every request with its octets.
abbrev echo : TeapStep (Unit {0})
echo = record {
  step = λ bytes d. (ok (DriverStep.respond bytes), d);
  tunnel_established = λ d. false;
}

abbrev fresh : PeerSession (Unit {0})
fresh = record {
  kind = SessionKind.user;
  driver = tt;
  pending_response = none;
  result = none;
  terminated = false;
}

abbrev answering : PeerSession (Unit {0})
answering = record fresh { pending_response = some (7 ∷ 8 ∷ []) }

-- Two sessions, of which the first one ends.
abbrev ops : List (Op (Unit {0}))
ops =
    Op.begin fresh
    ∷ Op.begin answering
    ∷ Op.process 1 (5 ∷ [])
    ∷ Op.fetch_response 2 1
    ∷ Op.fetch_response 1 9
    ∷ Op.end 1
    ∷ Op.process 1 (6 ∷ [])
    ∷ []

abbrev left : SessionRegistry (Unit {0})
left = record { next = 3; sessions = (2, answering) ∷ [] }

performs : performed echo ops Registry.new ≡ (
  Reply.handle 1
      ∷ Reply.handle 2
      ∷ Reply.action (some ProcessAction.respond)
      ∷ Reply.fetch (ResponseFetch.too_small 2)
      ∷ Reply.fetch (ResponseFetch.taken (5 ∷ []))
      ∷ Reply.existed true
      ∷ Reply.action none
      ∷ [],
  left,
)
unfolding performed Registry.new begin end Registry.process fetch_response Peer.process
    Peer.take_response Peer.response_len
performs = refl

registry_refines_example :
    both (performed echo ops Registry.new) ≡ promised echo ops (view Registry.new)
registry_refines_example = registry_refines echo ops Registry.new

below : (performed echo ops Registry.new).1.next < max_64
below = rw performs (omega arith)

handles_fresh_example :
    let r = (performed echo ops Registry.new).1 in
    (0 < (begin fresh r).0)
    × (get (begin fresh r).0 r.sessions ≡ none)
    × (get (begin fresh r).0 (begin fresh r).1.sessions ≡ some fresh)
    × (len (begin fresh r).1 ≡ suc (len r))
    × (len r ≡ len (end 2 r).1 + (if (end 2 r).0 then 1 else 0))
handles_fresh_example = handles_fresh echo ops fresh 2 below

fetch_once_example :
    (fetch_response 2 1 left ≡ (ResponseFetch.too_small 2, left))
    × ((fetch_response 2 2 left).0 ≡ ResponseFetch.taken (7 ∷ 8 ∷ []))
    × ((fetch_response 2 9 (fetch_response 2 2 left).1).0 ≡ ResponseFetch.nothing)
fetch_once_example = fetch_once left 2 answering (7 ∷ 8 ∷ []) 1 9 refl refl (omega arith)

-- A user profile with two trust anchors and a ticket.
abbrev config : SessionConfigBlob
config = record {
  machine = false;
  server_name = 114 ∷ 97 ∷ [];
  mat_vendor_id = 32473;
  max_fragment = 1024;
  selector_subject = 67 ∷ [];
  roots = (48 ∷ 1 ∷ []) ∷ (48 ∷ []) ∷ [];
  mat = some (9 ∷ 9 ∷ 9 ∷ []);
}

abbrev any_text : List ℕ → Bool
any_text bs = true

config-IsValid : IsValid any_text config
config-IsValid = record {
  vendor = omega arith;
  fragment = omega arith;
  server_utf8 = refl;
  server_len = omega arith;
  subject_utf8 = refl;
  subject_len = omega arith;
  count = omega arith;
  ders = (omega arith, (omega arith, tt));
  ticket = omega arith;
}

short : length (to_bytes config ++ 1 ∷ []) ≤ max_64
unfolding to_bytes Config.put_roots
short = omega arith

from_bytes-to_bytes_example :
    from_bytes any_text (to_bytes config ++ 1 ∷ []) ≡ err ConfigError.trailing_data
from_bytes-to_bytes_example = from_bytes-to_bytes any_text config (1 ∷ []) config-IsValid short
