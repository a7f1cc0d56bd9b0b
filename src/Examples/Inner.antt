-- ===== src/Examples/Inner.antt =====
-- A run of the inner method over the toy tunnel.
use usg_supplicant.Common.{
  ℕ, Bool, true, false, List, [], ◌∷◌, none, some, ok, replicate, ◌≡◌, refl,
}
use usg_supplicant.Common.Exec
use usg_supplicant.Eap
use usg_supplicant.Eap.{EapPacket, EapCode}
use usg_supplicant.Outer
use usg_supplicant.Outer.Reassembler
use usg_supplicant.Outer.Fragment
use usg_supplicant.Session.Types.{InnerStep}
use usg_supplicant.Supplicant.Inner
use usg_supplicant.Supplicant.Inner.{EapTlsInner, State, InnerTlsError, new, process}
use usg_supplicant.Supplicant.Inner.Completion.{Completed}
use usg_supplicant.Supplicant.Inner.Verdict.{processed, inner_done}
use usg_supplicant.Examples.Driver

abbrev request : ℕ → List ℕ → List ℕ
request id body =
    Driver.bytes_of
      (Eap.encode (record { code = EapCode.request; id = id; type_ = some 13; body = body }))

abbrev fresh : EapTlsInner Bool
fresh = record {
  tunnel = true;
  reasm = record { buf = []; expected_total = none; max_total = 262144; fragments = 0 };
  out_queue = [];
  state = State.handshake;
  started = false;
  max_fragment = 1000;
  last_id = 0;
}

made : new (ok true) 1000 ≡ ok fresh
unfolding new Reassembler.new
made = refl

-- EAP-TLS Start and the server's flight; the commitment comes next.
abbrev opening : List (List ℕ)
opening = request 1 (0x20 ∷ []) ∷ request 2 (0 ∷ 22 ∷ []) ∷ []

finishes :
    (process Driver.tunnel (processed Driver.tunnel fresh opening) (request 3 (0 ∷ 23 ∷ []))).0
    ≡ InnerStep.finished (replicate 32 0)
unfolding process processed Inner.try_process Inner.on_outer Inner.dispatch Inner.on_handshake
    Inner.open_handshake Inner.on_started Inner.after_feed Inner.continue_handshake
    Inner.complete_handshake Inner.on_commitment Inner.push_outer Inner.respond_with Inner.send_tls
    Inner.next_fragment Exec.◌>>=◌ Eap.decode Eap.decode_body Eap.code_from_u8 Eap.code_to_u8
    Eap.carries_type Eap.encode Outer.parse Outer.parse_length Outer.build Outer.flags_of
    Outer.is_ack Outer.ack Reassembler.new Reassembler.push Reassembler.push_counted
    Reassembler.append_fragment Reassembler.finish_message Fragment.fragment Fragment.chunks
    Fragment.chunks_fuel Fragment.outers
finishes = refl

inner_done_example :
    Completed Driver.tunnel
      (process Driver.tunnel
        (processed Driver.tunnel fresh opening)
        (request 3 (0 ∷ 23 ∷ []))).1.tunnel
      (replicate 32 0)
    × ((process Driver.tunnel
          (processed Driver.tunnel
            (process Driver.tunnel
              (processed Driver.tunnel fresh opening)
              (request 3 (0 ∷ 23 ∷ []))).1
            (request 4 (0 ∷ []) ∷ [] ∷ []))
          (request 5 (0x20 ∷ []))).0
        ≡ InnerStep.failed)
inner_done_example =
    inner_done Driver.tunnel (ok true) 1000 fresh opening (request 4 (0 ∷ []) ∷ [] ∷ [])
      (request 3 (0 ∷ 23 ∷ [])) (request 5 (0x20 ∷ [])) (replicate 32 0) made finishes
