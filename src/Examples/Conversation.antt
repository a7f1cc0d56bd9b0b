-- ===== src/Examples/Conversation.antt =====
-- Whole runs of the session: one message with everything in it, and the run that is not confirmed.
use mathlib.Core.List.{Memᴰ}
use mathlib.Core.List.Memᴰ.{head, tail}
use usg_supplicant.Common.{
  ℕ, true, false, List, [], ◌∷◌, ◌++◌, none, some, Result, ok, err, replicate, ◌≡◌, refl,
}
use usg_supplicant.KeySchedule
use usg_supplicant.KeySchedule.{
  Cmk, KeySchedule, absorb_inner, derive_session_keys, absorbed, imck_block, hkdf_expand,
  expand_loop,
}
use usg_supplicant.CryptoBind
use usg_supplicant.CryptoBind.Errors.{CryptoBindError}
use usg_supplicant.KeySchedule.Errors.{KeyScheduleError}
use usg_supplicant.Tlv.Error.{TlvError}
use usg_supplicant.Tlv.Raw
use usg_supplicant.Tlv.Raw.{RawTlv}
use usg_supplicant.Tlv.TypeId
use usg_supplicant.Tlv.Body.Fields.{ResultStatus}
use usg_supplicant.Tlv.Body.Fields
use usg_supplicant.Tlv.Body.ResultTlv
use usg_supplicant.Tlv.Body.EapPayloadTlv
use usg_supplicant.Tlv.Body.IntermediateResultTlv
use usg_supplicant.Tlv.Body.CryptoBindingTlv
use usg_supplicant.Tlv.Body.CryptoBindingTlv.{CryptoBindingTlv}
use usg_supplicant.Session.Types.{
  failure, malformed_message, Identity, InnerStep, finished, success, decode, already_terminated,
  done, TeapSession, Answer,
}
use usg_supplicant.Session.Flow
use usg_supplicant.Session.Binding
use usg_supplicant.Session.Machine
use usg_supplicant.Session.Stages.{Confirmed}
use usg_supplicant.Session.Confirmed.{at_start, success-Confirmed}
use usg_supplicant.Session.Sourced.{Derived}
use usg_supplicant.Session.Sourced.Run.{success-Derived}
use usg_supplicant.Session.Malformed.{step_duplicate}
use usg_supplicant.Session.Flow.{failure_tlv}
use usg_supplicant.Session.Closing.{Closed}
use usg_supplicant.Session.Terminal.{step_ends, done_is_final}
use usg_supplicant.Session.Unconfirmed.{intermediate_only, result_only, unconfirmed_success}
use usg_supplicant.Tlv.Body.IntermediateResultTlv.{IntermediateResultTlv}
use usg_supplicant.Examples.Base.{toy_mac}

-- An inner method that is done at once.
abbrev pub process : Unit {0} → List ℕ → InnerStep × Unit {0}
process tt eap = (finished (replicate 32 1), tt)

abbrev pub at_boot : TeapSession (Unit {0})
at_boot = record {
  cfg = record { identity = Identity.machine; mat_vendor_id = 311; mat_to_present = none };
  mac = toy_mac;
  inner = tt;
  ks = record { s_imck = replicate 40 0; methods = 0 };
  cmk = none;
  imsk = none;
  presented_mat = false;
  terminated = false;
}

abbrev key_of : Result KeyScheduleError Cmk → Cmk
key_of (ok cmk) = cmk
key_of (err e) = record { as_bytes = [] }

abbrev cmk : Cmk
cmk = key_of (absorb_inner toy_mac at_boot.ks (replicate 32 1)).0

abbrev unsealed : CryptoBindingTlv
unsealed = record {
  version = 1;
  received_version = 1;
  sub_type = 1;
  nonce = replicate 32 5;
  emsk_compound_mac = [];
  msk_compound_mac = [];
}

abbrev tlv_of : Result TlvError RawTlv → List RawTlv
tlv_of (ok t) = t ∷ []
tlv_of (err e) = []

abbrev binding_of : Result CryptoBindError CryptoBindingTlv → List RawTlv
binding_of (ok cb) = tlv_of (CryptoBindingTlv.to_tlv cb true)
binding_of (err e) = []

abbrev pub everything : List RawTlv
everything =
    EapPayloadTlv.to_tlv (record { eap = [] }) true
    ∷ ResultTlv.to_tlv ResultStatus.success true
    ∷ (tlv_of
          (IntermediateResultTlv.to_tlv (record { status = ResultStatus.success; tlvs = [] }) true)
        ++ binding_of (CryptoBind.seal toy_mac cmk unsealed))

abbrev last : TeapSession (Unit {0})
last = (Machine.step process at_boot everything).1

abbrev keys_of : Answer → List RawTlv × (List ℕ × List ℕ)
keys_of (ok (done send (success msk emsk mat))) = (send, (msk, emsk))
keys_of _ = ([], ([], []))

abbrev sent : List RawTlv
sent = (keys_of (Machine.step process at_boot everything).0).0

abbrev pub msk : List ℕ
msk = (keys_of (Machine.step process at_boot everything).0).1.0

abbrev emsk : List ℕ
emsk = (keys_of (Machine.step process at_boot everything).0).1.1

step-everything :
    Machine.step process at_boot everything ≡ (ok (done sent (success msk emsk none)), last)
unfolding Machine.step Machine.stages Machine.identity_stage Machine.payload_stage
    Machine.intermediate_stage Machine.result_stage Machine.answer_of Machine.handle_result
    Machine.export_keys Machine.conclude Machine.issued_mat Machine.find_mat Machine.find_mat_in
    Binding.handle_inner_success Binding.after_absorb Binding.absorb_once Binding.located
    Binding.find_crypto_binding Binding.check_binding Binding.verify_binding Binding.seal_response
    Binding.emit_response Binding.binding_response Flow.any_malformed Flow.of_type Flow.find
    ResultTlv.from_value ResultTlv.to_tlv EapPayloadTlv.to_tlv EapPayloadTlv.from_value
    IntermediateResultTlv.from_value IntermediateResultTlv.to_tlv CryptoBindingTlv.from_value
    CryptoBindingTlv.to_tlv CryptoBindingTlv.split_macs Fields.u16_at Fields.u32_at
    Fields.status_to_u16 Fields.status_from_u16 absorb_inner derive_session_keys absorbed imck_block
    hkdf_expand expand_loop CryptoBind.verify CryptoBind.seal CryptoBind.compute_msk_compound_mac
    CryptoBind.mac_input CryptoBind.ct_eq CryptoBind.diff_loop CryptoBind.any_nonzero
    Raw.encode_each Raw.encode_all Raw.encode_into Raw.encode Raw.parse_all Raw.parse_loop
    Raw.next_tlv Raw.next_value
step-everything = refl

success-Confirmed_example :
    ((key : Cmk) × (x : List RawTlv) × (last.cmk ≡ some key)
      × Memᴰ x (everything ∷ [])
      × Confirmed toy_mac key x)
    × (derive_session_keys toy_mac last.ks ≡ ok (msk, emsk))
    × (last.terminated ≡ true)
success-Confirmed_example =
    success-Confirmed process at_boot at_boot last [] everything sent msk emsk none refl at_start
      step-everything

step_ends_example : Closed (Machine.step process at_boot everything)
step_ends_example = step_ends process at_boot everything

done_is_final_example : Machine.step process last [] ≡ (err already_terminated, last)
done_is_final_example =
    done_is_final process at_boot last everything [] sent (success msk emsk none) step-everything

-- The inner method is done, and the nested Crypto-Binding has one octet.
abbrev inner_done : TeapSession (Unit {0})
inner_done = record at_boot { imsk = some (replicate 32 1) }

abbrev cut_binding : RawTlv
cut_binding = record { mandatory = true; tlv_type = 14; value = 0 ∷ [] }

abbrev cut_value : List ℕ
cut_value = 0 ∷ 1 ∷ 128 ∷ 14 ∷ 0 ∷ 1 ∷ 0 ∷ []

abbrev chain_of : Result KeyScheduleError Cmk × KeySchedule → KeySchedule
chain_of (r, ks) = ks

abbrev later : KeySchedule
later = chain_of (absorb_inner toy_mac at_boot.ks (replicate 32 1))

absorbs : absorb_inner toy_mac at_boot.ks (replicate 32 1) ≡ (ok cmk, later)
unfolding absorb_inner absorbed imck_block hkdf_expand expand_loop
absorbs = refl

abbrev pair_of : Result KeyScheduleError (List ℕ × List ℕ) → List ℕ × List ℕ
pair_of (ok keys) = keys
pair_of (err e) = ([], [])

abbrev later_keys : List ℕ × List ℕ
later_keys = pair_of (derive_session_keys toy_mac later)

derives : derive_session_keys toy_mac later ≡ ok (later_keys.0, later_keys.1)
unfolding absorb_inner absorbed imck_block hkdf_expand expand_loop derive_session_keys
derives = refl

abbrev cut_ir : IntermediateResultTlv
cut_ir = record { status = ResultStatus.success; tlvs = cut_binding ∷ [] }

reads : IntermediateResultTlv.from_value cut_value ≡ ok cut_ir
unfolding IntermediateResultTlv.from_value Fields.u16_at Fields.status_from_u16 Raw.parse_all
    Raw.parse_loop Raw.next_tlv Raw.next_value
reads = refl

cut : CryptoBindingTlv.from_value (0 ∷ []) ≡ err (CryptoBindingTlv.bad 1)
unfolding CryptoBindingTlv.from_value
cut = refl

finds : Flow.find (cut_binding ∷ []) TypeId.crypto_binding ≡ some cut_binding
unfolding Flow.find
finds = refl

abbrev keyed : TeapSession (Unit {0})
keyed = record inner_done { cmk = some cmk; ks = later }

unconfirmed_success_example :
    (Machine.step process inner_done (intermediate_only cut_value)
      ≡ (err (decode (CryptoBindingTlv.bad 1)), keyed))
    × (Machine.step process keyed result_only ≡ (
      ok (done result_only (success later_keys.0 later_keys.1 none)),
      record keyed { terminated = true },
    ))
unconfirmed_success_example =
    unconfirmed_success process inner_done cut_value (replicate 32 1) cut_ir cut_binding
      (CryptoBindingTlv.bad 1) cmk later later_keys.0 later_keys.1 refl refl refl absorbs reads refl
      finds cut derives

abbrev a_result : RawTlv
a_result = ResultTlv.to_tlv ResultStatus.success true

step_duplicate_example : Machine.step process at_boot (a_result ∷ cut_binding ∷ a_result ∷ []) ≡ (
  ok (done (failure_tlv ∷ []) (failure malformed_message)),
  record at_boot { terminated = true },
)
unfolding ResultTlv.to_tlv
step_duplicate_example =
    step_duplicate process at_boot [] (cut_binding ∷ []) [] a_result a_result refl
      (tail (tail (tail (head refl)))) refl

makes : Flow.new at_boot.cfg (replicate 40 0) toy_mac tt ≡ ok at_boot
unfolding Flow.new KeySchedule.new
makes = refl

success-Derived_example :
    (first : KeySchedule) × (KeySchedule.new (replicate 40 0) ≡ ok first)
    × Derived process tt first toy_mac last msk emsk
success-Derived_example =
    success-Derived process at_boot.cfg (replicate 40 0) toy_mac tt at_boot at_boot last []
      everything sent msk emsk none makes at_start step-everything
