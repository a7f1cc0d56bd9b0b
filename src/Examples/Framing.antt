-- ===== src/Examples/Framing.antt =====
-- Runs of the codecs: TLVs, EAP packets, outer messages and the stored ticket.
use usg_supplicant.Common.{
  ℕ, ◌+◌, ◌-◌, ◌*◌, ◌≤◌, ◌<◌, true, false, List, [], ◌∷◌, ◌++◌, Option, none, some, ok, err, ◌>>=◌,
  length, All, bit_and, if◌then◌else◌, replicate, ok_or, length-replicate, ◌≡◌, refl, ◌⊎◌, arith,
}
use usg_supplicant.Tlv.Error.{truncated_value}
use usg_supplicant.Tlv.Raw.{
  RawTlv, encode_all, parse_all, max_tlvs, next_tlv, parse_loop, next_value,
}
use usg_supplicant.Tlv.Raw.RoundTrip.{AreValid, parse_all-encode_all}
use usg_supplicant.Tlv.Raw.Sound.{parse_all_sound}
use usg_supplicant.Tlv.Body.Fields.{ResultStatus}
use usg_supplicant.Tlv.Body.IntermediateResultTlv.{IntermediateResultTlv}
use usg_supplicant.Tlv.Body.CryptoBindingTlv
use usg_supplicant.Tlv.Body.CryptoBindingTlv.{CryptoBindingTlv}
use usg_supplicant.Tlv.Body.Lengths.{IsSplit, from_value-IsSplit}
use usg_supplicant.Eap
use usg_supplicant.Eap.{EapPacket, EapCode}
use usg_supplicant.Eap.RoundTrip.{decode-encode}
use usg_supplicant.Eap.HeaderOnly.{
  Decoded, decode_sound, decode_untyped_trailing, encode_untyped_data,
}
use usg_supplicant.Outer.{TeapOuter, parse, build}
use usg_supplicant.Outer.Framing.{parse-build}
use usg_supplicant.Outer.Reassembler.{
  Reassembler, new, push, push_counted, append_fragment, finish_message, max_fragments,
}
use usg_supplicant.Outer.Fragment.{fragment, chunks, chunks_fuel, outers, piece_outer}
use usg_supplicant.Outer.Bounds.{IsWaiting, FitsTotal, pushes, push_completed, pushes_end}
use usg_supplicant.Outer.Pieces.{fragment_bounds}
use usg_supplicant.Outer.Delivery.{delivered, pushes-fragment}
use usg_supplicant.Pac.{MatRecord, not_found, is_fresh}
use usg_supplicant.Pac
use usg_supplicant.Pac.Record.{MatRecord_round_trip}
use usg_supplicant.Pac.Store.{InMemory, Sealer, Files, file_store, fresh_ticket}
use usg_supplicant.Pac.Store.Laws.{file_save-fresh_ticket}

abbrev two_tlvs : List RawTlv
two_tlvs =
    record { mandatory = true; tlv_type = 3; value = 0 ∷ 1 ∷ [] }
    ∷ record { mandatory = false; tlv_type = 9; value = [] }
    ∷ []

two_tlvs-AreValid : AreValid two_tlvs
two_tlvs-AreValid = (
  record { type_ne_zero = omega arith; type_fits = omega arith; value_fits = omega arith },
  (record { type_ne_zero = omega arith; type_fits = omega arith; value_fits = omega arith }, tt),
)

parse_all-encode_all_example :
    (buf : List ℕ) × (encode_all two_tlvs ≡ ok buf) × (parse_all buf ≡ ok two_tlvs)
parse_all-encode_all_example = parse_all-encode_all two_tlvs two_tlvs-AreValid (omega arith)

abbrev one_frame : List ℕ
one_frame = 128 ∷ 3 ∷ 0 ∷ 2 ∷ 0 ∷ 1 ∷ []

abbrev one_tlv : List RawTlv
one_tlv = record { mandatory = true; tlv_type = 3; value = 0 ∷ 1 ∷ [] } ∷ []

one_frame-parsed : parse_all one_frame ≡ ok one_tlv
unfolding parse_all parse_loop next_tlv next_value
one_frame-parsed = refl

parse_all_sound_example :
    (length one_tlv ≤ max_tlvs)
    × AreValid one_tlv
    × ((canon : List ℕ) × (encode_all one_tlv ≡ ok canon)
        × (length canon ≡ length one_frame)
        × (parse_all canon ≡ ok one_tlv))
parse_all_sound_example = parse_all_sound one_frame (omega arith) one_frame-parsed

abbrev some_ir : IntermediateResultTlv
some_ir = record { status = ResultStatus.success; tlvs = two_tlvs }

abbrev some_cb : CryptoBindingTlv
some_cb = record {
  version = 1;
  received_version = 1;
  sub_type = 1;
  nonce = replicate 32 5;
  emsk_compound_mac = replicate 32 0;
  msk_compound_mac = replicate 32 9;
}

some_cb-IsSplit : IsSplit some_cb
some_cb-IsSplit = record { nonce_len = refl; mac_some = omega arith; mac_same = refl }

abbrev cb_body : List ℕ
cb_body = 0 ∷ 1 ∷ 1 ∷ 1 ∷ (replicate 32 5 ++ (replicate 32 0 ++ replicate 32 9))

from_value-IsSplit_example :
    IsSplit some_cb × (length cb_body ≡ 36 + 2 * length some_cb.emsk_compound_mac)
unfolding CryptoBindingTlv.from_value CryptoBindingTlv.split_macs
from_value-IsSplit_example = from_value-IsSplit cb_body refl

-- EAP
abbrev some_packet : EapPacket
some_packet = record { code = EapCode.response; id = 7; type_ = some 55; body = 1 ∷ 2 ∷ [] }

decode-encode_example : (Eap.encode some_packet >>= Eap.decode) ≡ ok some_packet
decode-encode_example = decode-encode some_packet (λ e. ground arith) (omega arith)

abbrev some_octets : List ℕ
some_octets = 2 ∷ 7 ∷ 0 ∷ 7 ∷ 55 ∷ 1 ∷ 2 ∷ []

decode_sound_example : (length some_octets ≤ 65535) × Decoded true some_packet some_octets
unfolding Eap.decode Eap.decode_body Eap.code_from_u8 Eap.carries_type
decode_sound_example = decode_sound some_octets (omega arith) refl

decode_untyped_trailing_example :
    (p : EapPacket) × (Eap.decode (3 ∷ 9 ∷ 0 ∷ 6 ∷ 1 ∷ 2 ∷ []) ≡ ok p)
    × (Eap.decode (3 ∷ 9 ∷ 0 ∷ 4 ∷ []) ≡ ok p)
    × (Eap.encode p ≡ ok (3 ∷ 9 ∷ 0 ∷ 4 ∷ []))
decode_untyped_trailing_example =
    decode_untyped_trailing 3 9 0 6 (1 ∷ 2 ∷ []) (omega arith) (omega arith) refl

abbrev untyped_packet : EapPacket
untyped_packet = record { code = EapCode.success; id = 7; type_ = none; body = 1 ∷ 2 ∷ [] }

encode_untyped_data_example :
    (Eap.encode untyped_packet >>= Eap.decode) ≡ err (truncated_value 0 6 4)
encode_untyped_data_example = encode_untyped_data untyped_packet refl (omega arith) (omega arith)

-- Outer messages
abbrev some_outer : TeapOuter
some_outer = record {
  version = 1;
  start = false;
  more_fragments = true;
  tls_message_length = some 5;
  body = 1 ∷ 2 ∷ [];
}

parse-build_example : parse (build some_outer) ≡ ok some_outer
parse-build_example = parse-build some_outer (omega arith) (omega arith)

abbrev half_done : Reassembler
half_done = record { buf = 1 ∷ 2 ∷ []; expected_total = some 4; max_total = 100; fragments = 1 }

abbrev last_piece : TeapOuter
last_piece = record {
  version = 1;
  start = false;
  more_fragments = false;
  tls_message_length = none;
  body = 3 ∷ 4 ∷ [];
}

push_completed_example :
    (1 ∷ 2 ∷ 3 ∷ 4 ∷ [] ≡ half_done.buf ++ last_piece.body)
    × (4 ≤ 100)
    × (last_piece.more_fragments ≡ false)
    × FitsTotal (some 4) (1 ∷ 2 ∷ 3 ∷ 4 ∷ [])
    × FitsTotal none (1 ∷ 2 ∷ 3 ∷ 4 ∷ [])
    × ((push half_done last_piece).1 ≡ new 100)
unfolding push push_counted append_fragment finish_message
push_completed_example = push_completed half_done last_piece refl

pushes_end_example : ¬ All IsWaiting (pushes (new 4) (replicate 1025 last_piece)).0
pushes_end_example =
    pushes_end 4 (replicate 1025 last_piece) (omega (arith, length-replicate 1025 last_piece))

abbrev message : List ℕ
message = 1 ∷ 2 ∷ 3 ∷ 4 ∷ 5 ∷ []

fragment_bounds_example :
    All (λ o. (length o.body ≤ 2) × (o.version ≡ bit_and 1 7)) (fragment message 2 1)
    × (0 < length (fragment message 2 1))
    × ((length (fragment message 2 1) ≡ 1) ⊎ (length (fragment message 2 1) * 2 < 5 + 2))
fragment_bounds_example = fragment_bounds message 2 1

message-pieces : length (fragment message 2 1) ≤ max_fragments
unfolding fragment chunks chunks_fuel outers piece_outer
message-pieces = omega arith

pushes-fragment_example :
    pushes (new 100) (fragment message 2 1)
    ≡ (delivered (length (fragment message 2 1) - 1) message, new 100)
pushes-fragment_example = pushes-fragment message 2 1 100 (omega arith) message-pieces

abbrev some_record : MatRecord
some_record = record { ticket = 8 ∷ 9 ∷ []; stored_at_unix = 1700000000 }

MatRecord_round_trip_example : (Pac.encode some_record >>= Pac.decode) ≡ ok some_record
MatRecord_round_trip_example = MatRecord_round_trip some_record (omega arith) (omega arith)

abbrev empty_store : InMemory
empty_store = record { sealed = none; poisoned = false }

-- A sealer that flips nothing, and a file that takes what is written.
abbrev plain_sealer : Sealer
plain_sealer = record { seal = λ plain. ok plain; unseal = λ sealed. ok sealed }

abbrev disk : Files (Option (List ℕ))
disk = record {
  read = λ f. ok_or f not_found;
  write = λ bytes f. (ok tt, some bytes);
  remove = λ f. (ok tt, none);
}

file_save-fresh_ticket_example :
    let (saved, g) = (file_store plain_sealer disk).save some_record none in
    (saved ≡ ok tt)
    × (fresh_ticket (file_store plain_sealer disk) g 1700000100 3600
        ≡ ok (if is_fresh some_record 1700000100 3600 then some (8 ∷ 9 ∷ []) else none))
file_save-fresh_ticket_example =
    file_save-fresh_ticket plain_sealer disk none some_record 1700000100 3600 (omega arith)
      (omega arith) (λ plain. refl) (λ bytes g. (some bytes, refl, refl))
