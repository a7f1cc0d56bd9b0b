-- ===== src/Session/Binding.antt =====
-- crates/teap/src/session.rs: `find_crypto_binding` and `handle_inner_success`, the stage behind a
-- `Success` Intermediate-Result. Its last part comes first.
use usg_supplicant.Common.{
  ℕ, Bool, true, not, ◌||◌, List, [], ◌∷◌, ◌++◌, Option, none, some, Result, ok, err, ◌>>=◌,
  map_err, ◌==◌, if◌then◌else◌,
}
use usg_supplicant.KeySchedule.{Cmk, absorb_inner}
use usg_supplicant.KeySchedule.Errors.{KeyScheduleError}
use usg_supplicant.CryptoBind
use usg_supplicant.CryptoBind.Errors.{CryptoBindError}
use usg_supplicant.Tlv.Error.{TlvError}
use usg_supplicant.Tlv.Raw.{RawTlv}
use usg_supplicant.Tlv.TypeId
use usg_supplicant.Tlv.Body.Fields.{ResultStatus}
use usg_supplicant.Tlv.Body.IntermediateResultTlv
use usg_supplicant.Tlv.Body.IntermediateResultTlv.{IntermediateResultTlv}
use usg_supplicant.Tlv.Body.CryptoBindingTlv
use usg_supplicant.Tlv.Body.CryptoBindingTlv.{CryptoBindingTlv}
use usg_supplicant.Session.Types.{
  inner_failed, missing_crypto_binding, crypto_binding, key_schedule, bad_crypto_binding_fields,
  SessionError, decode, TeapSession,
}
use usg_supplicant.Session.Flow.{Flow, leave, go_on, fail, find}

abbrev pub cb_of : RawTlv → Result SessionError (Option CryptoBindingTlv)
cb_of raw = map_err decode (CryptoBindingTlv.from_value raw.value >>= λ cb. ok (some cb))

-- Nested in the Intermediate-Result.
abbrev pub nested_cb : Option RawTlv → Result SessionError (Option CryptoBindingTlv)
nested_cb none = ok none
nested_cb (some raw) = cb_of raw

-- Top level first.
abbrev pub top_cb :
    Option RawTlv → IntermediateResultTlv → Result SessionError (Option CryptoBindingTlv)
top_cb none ir = nested_cb (find ir.tlvs TypeId.crypto_binding)
top_cb (some raw) ir = cb_of raw

unfoldable pub find_crypto_binding :
    List RawTlv → IntermediateResultTlv → Result SessionError (Option CryptoBindingTlv)
find_crypto_binding inbound ir = top_cb (find inbound TypeId.crypto_binding) ir

-- Our Crypto-Binding inside our Intermediate-Result.
unfoldable pub binding_response : CryptoBindingTlv → Result TlvError RawTlv
binding_response resp = do
  t ← CryptoBindingTlv.to_tlv resp true
  IntermediateResultTlv.to_tlv (record { status = ResultStatus.success; tlvs = t ∷ [] }) true

abbrev pub as_response : CryptoBindingTlv → CryptoBindingTlv
as_response cb = record cb { sub_type = CryptoBind.cb_subtype_response }

-- The sub-type is not that of a request, or a version is not 1.
abbrev pub wrong_fields : CryptoBindingTlv → Bool
wrong_fields cb =
    not (cb.sub_type == CryptoBind.cb_subtype_request)
    || not (cb.version == CryptoBind.teap_version)
    || not (cb.received_version == CryptoBind.teap_version)

module _ {I : Type 0} where
  abbrev pub emitted : Result TlvError RawTlv → TeapSession I → List RawTlv → Flow × TeapSession I
  emitted (ok t) s out = (go_on (out ++ t ∷ []), s)
  emitted (err e) s out = (leave (err (decode e)), s)

  unfoldable pub emit_response :
      TeapSession I → List RawTlv → CryptoBindingTlv → Flow × TeapSession I
  emit_response s out resp = emitted (binding_response resp) s out

  abbrev pub sealed_with :
      Result CryptoBindError CryptoBindingTlv → TeapSession I → List RawTlv → Flow × TeapSession I
  sealed_with (ok resp) s out = emit_response s out resp
  sealed_with (err e) s out = fail s out (crypto_binding e)

  unfoldable pub seal_response :
      TeapSession I → List RawTlv → Cmk → CryptoBindingTlv → Flow × TeapSession I
  seal_response s out cmk cb = sealed_with (CryptoBind.seal s.mac cmk (as_response cb)) s out

  abbrev pub verified_with :
      Result CryptoBindError (Unit {0})
      → TeapSession I
      → List RawTlv
      → Cmk
      → CryptoBindingTlv
      → Flow × TeapSession I
  verified_with (ok _) s out cmk cb = seal_response s out cmk cb
  verified_with (err e) s out cmk cb = fail s out (crypto_binding e)

  unfoldable pub verify_binding :
      TeapSession I → List RawTlv → Cmk → CryptoBindingTlv → Flow × TeapSession I
  verify_binding s out cmk cb = verified_with (CryptoBind.verify s.mac cmk cb) s out cmk cb

  abbrev pub with_cmk :
      Option Cmk → TeapSession I → List RawTlv → CryptoBindingTlv → Flow × TeapSession I
  with_cmk none s out cb = fail s out missing_crypto_binding
  with_cmk (some cmk) s out cb = verify_binding s out cmk cb

  unfoldable pub check_binding :
      TeapSession I → List RawTlv → CryptoBindingTlv → Flow × TeapSession I
  check_binding s out cb =
      if wrong_fields cb then fail s out bad_crypto_binding_fields else with_cmk s.cmk s out cb

  unfoldable pub located :
      Result SessionError (Option CryptoBindingTlv)
      → TeapSession I
      → List RawTlv
      → Flow × TeapSession I
  located (err e) s out = (leave (err e), s)
  located (ok none) s out = fail s out missing_crypto_binding
  located (ok (some cb)) s out = check_binding s out cb

  abbrev pub store_cmk :
      Result KeyScheduleError Cmk
      → TeapSession I
      → Result KeyScheduleError (Unit {0}) × TeapSession I
  store_cmk (ok cmk) s = (ok tt, record s { cmk = some cmk })
  store_cmk (err e) s = (err e, s)

  abbrev pub absorb_into :
      Option Cmk → TeapSession I → List ℕ → Result KeyScheduleError (Unit {0}) × TeapSession I
  absorb_into (some cmk) s imsk = (ok tt, s)
  absorb_into none s imsk =
      let (r, ks) = absorb_inner s.mac s.ks imsk in store_cmk r (record s { ks = ks })

  -- Absorb exactly once.
  unfoldable pub absorb_once :
      TeapSession I → List ℕ → Result KeyScheduleError (Unit {0}) × TeapSession I
  absorb_once s imsk = absorb_into s.cmk s imsk

  unfoldable pub after_absorb :
      Result KeyScheduleError (Unit {0}) × TeapSession I
      → List RawTlv
      → IntermediateResultTlv
      → List RawTlv
      → Flow × TeapSession I
  after_absorb (err e, s) inbound ir out = fail s out (key_schedule e)
  after_absorb (ok _, s) inbound ir out = located (find_crypto_binding inbound ir) s out

  abbrev pub inner_success_with :
      Option (List ℕ)
      → TeapSession I
      → List RawTlv
      → IntermediateResultTlv
      → List RawTlv
      → Flow × TeapSession I
  inner_success_with none s inbound ir out = fail s out inner_failed
  inner_success_with (some imsk) s inbound ir out = after_absorb (absorb_once s imsk) inbound ir out

  unfoldable pub handle_inner_success :
      TeapSession I → List RawTlv → IntermediateResultTlv → List RawTlv → Flow × TeapSession I
  handle_inner_success s inbound ir out = inner_success_with s.imsk s inbound ir out
