-- ===== src/Session/Machine.antt =====
-- crates/teap/src/session.rs: `find_mat`, `handle_result` and `step`, a stage for each numbered
-- part of `step`.
use usg_supplicant.Common.{
  ℕ, true, not, ◌&&◌, List, [], ◌∷◌, ◌++◌, Option, none, some, Result, ok, err, ◌>>=◌, map_err,
  ◌==◌, if◌then◌else◌, length,
}
use usg_supplicant.KeySchedule.{Cmk, derive_session_keys}
use usg_supplicant.KeySchedule.Errors.{KeyScheduleError}
use usg_supplicant.Tlv.Error.{TlvError}
use usg_supplicant.Tlv.Raw.{RawTlv}
use usg_supplicant.Tlv.TypeId
use usg_supplicant.Tlv.Body.Fields.{ResultStatus}
use usg_supplicant.Tlv.Body.IdentityType
use usg_supplicant.Tlv.Body.IdentityType.{IdentityType}
use usg_supplicant.Tlv.Body.ResultTlv
use usg_supplicant.Tlv.Body.EapPayloadTlv
use usg_supplicant.Tlv.Body.IntermediateResultTlv
use usg_supplicant.Tlv.Body.IntermediateResultTlv.{IntermediateResultTlv}
use usg_supplicant.Tlv.Body.VendorSpecificTlv
use usg_supplicant.Tlv.Body.VendorSpecificTlv.{VendorSpecificTlv}
use usg_supplicant.Session.Types.{
  critical_types, matches, is_user, InnerStep, respond, finished, failed, identity_mismatch,
  inner_failed, missing_crypto_binding, server_failure, key_schedule, malformed_message, bad_imsk,
  success, SessionError, decode, already_terminated, continues, done, TeapSession, Answer,
}
use usg_supplicant.Session.Flow.{Flow, leave, go_on, then_stage, fail, find, of_type, any_malformed}
use usg_supplicant.Session.Binding.{handle_inner_success}

-- The loop over the Vendor-Specific TLVs.
unfoldable pub find_mat_in : List RawTlv → ℕ → Result SessionError (Option (List ℕ))
find_mat_in [] vendor_id = ok none
find_mat_in (t ∷ ts) vendor_id =
    let rest = find_mat_in ts vendor_id in
    map_err decode (VendorSpecificTlv.from_value t.value) >>= λ vs.
    if vs.vendor_id == vendor_id then ok (some vs.body) else rest

unfoldable pub find_mat : List RawTlv → ℕ → Result SessionError (Option (List ℕ))
find_mat inbound vendor_id = find_mat_in (of_type TypeId.vendor_specific inbound) vendor_id

-- The TLVs that present a stored MAT.
abbrev pub mat_tlvs : ℕ → Option (List ℕ) → List RawTlv
mat_tlvs vendor_id none = []
mat_tlvs vendor_id (some mat) =
    VendorSpecificTlv.to_tlv (record { vendor_id = vendor_id; body = mat }) true ∷ []

module _ {I : Type 0} where
  unfoldable pub issued_mat : TeapSession I → List RawTlv → Result SessionError (Option (List ℕ))
  issued_mat s inbound =
      if is_user s.cfg.identity then ok none else find_mat inbound s.cfg.mat_vendor_id

  -- The end of a successful session.
  unfoldable pub conclude :
      Result SessionError (Option (List ℕ))
      → List ℕ × List ℕ
      → TeapSession I
      → List RawTlv
      → Flow × TeapSession I
  conclude (err e) keys s out = (leave (err e), s)
  conclude (ok mat) (msk, emsk) s out = (
    leave
        (ok (done (out ++ ResultTlv.to_tlv ResultStatus.success true ∷ []) (success msk emsk mat))),
    record s { terminated = true },
  )

  unfoldable pub export_keys :
      Result KeyScheduleError (List ℕ × List ℕ)
      → TeapSession I
      → List RawTlv
      → List RawTlv
      → Flow × TeapSession I
  export_keys (err e) s inbound out = fail s out (key_schedule e)
  export_keys (ok keys) s inbound out = conclude (issued_mat s inbound) keys s out

  abbrev pub result_with :
      Option Cmk → TeapSession I → List RawTlv → List RawTlv → Flow × TeapSession I
  result_with none s inbound out = fail s out missing_crypto_binding
  result_with (some _) s inbound out = export_keys (derive_session_keys s.mac s.ks) s inbound out

  unfoldable pub handle_result :
      TeapSession I → List RawTlv → ResultStatus → List RawTlv → Flow × TeapSession I
  handle_result s inbound ResultStatus.success out = result_with s.cmk s inbound out
  handle_result s inbound _ out = fail s out server_failure

  -- 1. Identity-Type.
  unfoldable pub present_mat : TeapSession I → Flow × TeapSession I
  present_mat s =
      if is_user s.cfg.identity && not s.presented_mat
      then (
        go_on (mat_tlvs s.cfg.mat_vendor_id s.cfg.mat_to_present),
        record s { presented_mat = true },
      )
      else (go_on [], s)

  abbrev pub identity_parsed : Result TlvError IdentityType → TeapSession I → Flow × TeapSession I
  identity_parsed (ok it) s =
      if matches s.cfg.identity it then present_mat s else fail s [] identity_mismatch
  identity_parsed (err e) s = (leave (err (decode e)), s)

  abbrev pub identity_found : Option RawTlv → TeapSession I → Flow × TeapSession I
  identity_found none s = (go_on [], s)
  identity_found (some raw) s = identity_parsed (IdentityType.from_value raw.value) s

  unfoldable pub identity_stage : List RawTlv → TeapSession I → Flow × TeapSession I
  identity_stage inbound s = identity_found (find inbound TypeId.identity_type) s

  -- 3. Intermediate-Result.
  abbrev pub inner_result :
      ResultStatus
      → IntermediateResultTlv
      → List RawTlv
      → List RawTlv
      → TeapSession I
      → Flow × TeapSession I
  inner_result ResultStatus.success ir inbound out s = handle_inner_success s inbound ir out
  inner_result _ ir inbound out s = fail s out inner_failed

  abbrev pub intermediate_parsed :
      Result TlvError IntermediateResultTlv
      → List RawTlv
      → List RawTlv
      → TeapSession I
      → Flow × TeapSession I
  intermediate_parsed (ok ir) inbound out s = inner_result ir.status ir inbound out s
  intermediate_parsed (err e) inbound out s = (leave (err (decode e)), s)

  abbrev pub intermediate_found :
      Option RawTlv → List RawTlv → List RawTlv → TeapSession I → Flow × TeapSession I
  intermediate_found none inbound out s = (go_on out, s)
  intermediate_found (some raw) inbound out s =
      intermediate_parsed (IntermediateResultTlv.from_value raw.value) inbound out s

  unfoldable pub intermediate_stage :
      List RawTlv → List RawTlv → TeapSession I → Flow × TeapSession I
  intermediate_stage inbound out s =
      intermediate_found (find inbound TypeId.intermediate_result) inbound out s

  -- 4. Result.
  abbrev pub result_parsed :
      Result TlvError ResultStatus
      → List RawTlv
      → List RawTlv
      → TeapSession I
      → Flow × TeapSession I
  result_parsed (ok status) inbound out s = handle_result s inbound status out
  result_parsed (err e) inbound out s = (leave (err (decode e)), s)

  abbrev pub result_found :
      Option RawTlv → List RawTlv → List RawTlv → TeapSession I → Flow × TeapSession I
  result_found none inbound out s = (go_on out, s)
  result_found (some raw) inbound out s =
      result_parsed (ResultTlv.from_value raw.value) inbound out s

  unfoldable pub result_stage : List RawTlv → List RawTlv → TeapSession I → Flow × TeapSession I
  result_stage inbound out s = result_found (find inbound TypeId.result) inbound out s

  unfoldable pub answer_of : Flow × TeapSession I → Answer × TeapSession I
  answer_of (leave a, s) = (a, s)
  answer_of (go_on out, s) = (ok (continues out), s)

module _ {I : Type 0} (process : I → List ℕ → InnerStep × I) where
  -- 2. Inner EAP-Payload.
  abbrev pub inner_step : InnerStep → TeapSession I → List RawTlv → Flow × TeapSession I
  inner_step (respond resp) s out =
      (go_on (out ++ EapPayloadTlv.to_tlv (record { eap = resp }) true ∷ []), s)
  inner_step (finished imsk) s out =
      if length imsk == 32 then (go_on out, record s { imsk = some imsk }) else fail s out bad_imsk
  inner_step failed s out = fail s out inner_failed

  abbrev pub payload_found : Option RawTlv → List RawTlv → TeapSession I → Flow × TeapSession I
  payload_found none out s = (go_on out, s)
  payload_found (some raw) out s =
      let (st, inner) = process s.inner (EapPayloadTlv.from_value raw.value).eap in
      inner_step st (record s { inner = inner }) out

  unfoldable pub payload_stage : List RawTlv → List RawTlv → TeapSession I → Flow × TeapSession I
  payload_stage inbound out s = payload_found (find inbound TypeId.eap_payload) out s

  -- The four stages in order.
  unfoldable pub stages : List RawTlv → TeapSession I → Flow × TeapSession I
  stages inbound s =
      then_stage
        (then_stage (then_stage (identity_stage inbound s) (payload_stage inbound))
          (intermediate_stage inbound))
        (result_stage inbound)

  unfoldable pub step : TeapSession I → List RawTlv → Answer × TeapSession I
  step s inbound =
      if s.terminated
      then (err already_terminated, s)
      else answer_of (
          if any_malformed critical_types inbound
          then fail s [] malformed_message
          else stages inbound s)
