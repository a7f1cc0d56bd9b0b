-- ===== src/Session/Completes.antt =====
-- crates/teap/src/session.rs: an honest server and the session.
use usg_supplicant.Common.{
  ℕ, ◌≤◌, Bool, true, false, List, [], ◌∷◌, ◌++◌, none, some, ok, length, length-append,
  length-replicate, saturating_add, ◌==◌, ==_iff, ◌>>=◌, ◌≡◌, refl, sym, ap, ◌∙◌, arith, drop, take,
}
use usg_supplicant.KeySchedule.{
  TeapMac, KeySchedule, Cmk, absorb_inner, derive_session_keys, label_msk, label_emsk,
}
use usg_supplicant.KeySchedule.Expand.{MacLaws, okm}
use usg_supplicant.KeySchedule.Chain.{imck, absorb_inner_lem, derive_session_keys_lem}
use usg_supplicant.CryptoBind
use usg_supplicant.CryptoBind.{seal, verify}
use usg_supplicant.CryptoBind.Input.{macced}
use usg_supplicant.CryptoBind.Verified.{sealed, seal_lem, verify_iff, sealed-IsBound}
use usg_supplicant.Tlv.Raw
use usg_supplicant.Tlv.Raw.{RawTlv}
use usg_supplicant.Tlv.Raw.Frame.{IsValid, encode_into_lem, frame}
use usg_supplicant.Tlv.TypeId
use usg_supplicant.Tlv.Body.Fields.{ResultStatus, u16_at, status_to_u16, status_from_u16}
use usg_supplicant.Tlv.Body.ResultTlv
use usg_supplicant.Tlv.Body.IntermediateResultTlv
use usg_supplicant.Tlv.Body.IntermediateResultTlv.{IntermediateResultTlv}
use usg_supplicant.Tlv.Body.CryptoBindingTlv
use usg_supplicant.Tlv.Body.CryptoBindingTlv.{CryptoBindingTlv}
use usg_supplicant.Tlv.Body.Lengths.{CryptoBindingTlv_round_trip}
use usg_supplicant.Session.Types.{is_user, InnerStep, success, done, TeapSession}
use usg_supplicant.Session.Flow.{find, of_type, any_malformed}
use usg_supplicant.Session.Binding
use usg_supplicant.Session.Machine

-- What a server that has the key asks for.
abbrev pub request_of : (nonce : List ℕ) → CryptoBindingTlv
request_of nonce = record {
  version = CryptoBind.teap_version;
  received_version = CryptoBind.teap_version;
  sub_type = CryptoBind.cb_subtype_request;
  nonce = nonce;
  emsk_compound_mac = [];
  msk_compound_mac = [];
}

abbrev pub binding_tlv : CryptoBindingTlv → RawTlv
binding_tlv cb = record {
  mandatory = true;
  tlv_type = TypeId.crypto_binding;
  value =
      0
      ∷ cb.version
      ∷ cb.received_version
      ∷ cb.sub_type
      ∷ (cb.nonce ++ (cb.emsk_compound_mac ++ cb.msk_compound_mac));
}

-- A `Success` Intermediate-Result, the Crypto-Binding and a `Success` Result.
abbrev pub confirmation : CryptoBindingTlv → List RawTlv
confirmation cb =
    record { mandatory = true; tlv_type = TypeId.intermediate_result; value = 0 ∷ 1 ∷ [] }
    ∷ binding_tlv cb
    ∷ ResultTlv.to_tlv ResultStatus.success true
    ∷ []

binding-fits :
    (cb : CryptoBindingTlv)
    → length cb.nonce ≡ 32
    → length cb.emsk_compound_mac ≤ 64
    → length cb.msk_compound_mac ≤ 64
    → length (binding_tlv cb).value ≤ 65535
binding-fits cb n e m =
    let a = length-append cb.nonce (cb.emsk_compound_mac ++ cb.msk_compound_mac) in
    let b = length-append cb.emsk_compound_mac cb.msk_compound_mac in omega arith

module _ (mac : TeapMac) (laws : MacLaws mac) (cmk : Cmk) where
  sealed-nonce :
      (cb : CryptoBindingTlv) → length cb.nonce ≡ 32 → length (sealed mac laws cmk cb).nonce ≡ 32
  unfolding sealed
  sealed-nonce cb h = h

  sealed-size :
      (cb : CryptoBindingTlv)
      → (length (sealed mac laws cmk cb).emsk_compound_mac ≡ mac.hash_len)
        × (length (sealed mac laws cmk cb).msk_compound_mac ≡ mac.hash_len)
  unfolding sealed
  sealed-size cb =
      (length-replicate mac.hash_len 0, laws.length-hmac cmk.as_bytes (macced cb mac.hash_len))

  to_tlv-sealed :
      (cb : CryptoBindingTlv)
      → CryptoBindingTlv.to_tlv (sealed mac laws cmk cb) true
        ≡ ok (binding_tlv (sealed mac laws cmk cb))
  unfolding CryptoBindingTlv.to_tlv
  to_tlv-sealed cb =
      let (e, m) = sealed-size cb in
      let same : (length (sealed mac laws cmk cb).emsk_compound_mac
            == length (sealed mac laws cmk cb).msk_compound_mac)
          ≡ true =
        (==_iff _ _).1 (e ∙ sym m) in
      rw same refl

  from_value-sealed :
      (cb : CryptoBindingTlv)
      → length cb.nonce ≡ 32
      → CryptoBindingTlv.from_value (binding_tlv (sealed mac laws cmk cb)).value
        ≡ ok (sealed mac laws cmk cb)
  from_value-sealed cb h =
      let (e, m) = sealed-size cb in
      sym (ap (λ r. r >>= λ raw. CryptoBindingTlv.from_value raw.value) (to_tlv-sealed cb))
      ∙ CryptoBindingTlv_round_trip (sealed mac laws cmk cb) true (record {
        nonce_len = sealed-nonce cb h;
        mac_some = omega (arith, e, laws.hash_some);
        mac_same = e ∙ sym m;
      })

  -- The reply can be written.
  binding_response-sealed :
      (cb : CryptoBindingTlv)
      → length cb.nonce ≡ 32
      → (t : RawTlv) × (Binding.binding_response (sealed mac laws cmk cb) ≡ ok t)
  unfolding Binding.binding_response IntermediateResultTlv.to_tlv Raw.encode_each status_to_u16
  binding_response-sealed cb h =
      let (e, m) = sealed-size cb in
      let b : RawTlv = binding_tlv (sealed mac laws cmk cb) in
      let size : length b.value ≤ 65535 =
        binding-fits (sealed mac laws cmk cb) (sealed-nonce cb h)
          (omega (arith, e, laws.hash_small)) (omega (arith, m, laws.hash_small)) in
      let fits : IsValid b = record {
        type_ne_zero = omega arith;
        type_fits = omega arith;
        value_fits = size;
      } in
      (
        record {
          mandatory = true;
          tlv_type = TypeId.intermediate_result;
          value = (0 ∷ 1 ∷ []) ++ frame b;
        },
        rw (to_tlv-sealed cb, encode_into_lem b (0 ∷ 1 ∷ []) fits) refl,
      )

module _ {I : Type 0} (process : I → List ℕ → InnerStep × I) where
  -- The run of `step` on the confirmation.
  step-confirmation :
      (s : TeapSession I) (cmk : Cmk) (ks : KeySchedule) (imsk : List ℕ)
      (cb resp : CryptoBindingTlv) (reply : RawTlv) (msk emsk : List ℕ)
      → s.terminated ≡ false
      → s.imsk ≡ some imsk
      → s.cmk ≡ none
      → absorb_inner s.mac s.ks imsk ≡ (ok cmk, ks)
      → CryptoBindingTlv.from_value (binding_tlv cb).value ≡ ok cb
      → Binding.wrong_fields cb ≡ false
      → verify s.mac cmk cb ≡ ok tt
      → seal s.mac cmk (Binding.as_response cb) ≡ ok resp
      → Binding.binding_response resp ≡ ok reply
      → derive_session_keys s.mac ks ≡ ok (msk, emsk)
      → Machine.step process s (confirmation cb) ≡ (
        ok (done (reply ∷ ResultTlv.to_tlv ResultStatus.success true ∷ []) (success msk emsk none)),
        record s { cmk = some cmk; ks = ks; terminated = true },
      )
  unfolding Machine.step Machine.stages Machine.identity_stage Machine.payload_stage
      Machine.intermediate_stage Machine.result_stage Machine.answer_of Machine.handle_result
      Machine.export_keys Machine.conclude Machine.issued_mat Machine.find_mat Machine.find_mat_in
      Binding.handle_inner_success Binding.after_absorb Binding.absorb_once Binding.located
      Binding.find_crypto_binding Binding.check_binding Binding.verify_binding Binding.seal_response
      Binding.emit_response any_malformed of_type find ResultTlv.from_value ResultTlv.to_tlv u16_at
      status_to_u16 status_from_u16 IntermediateResultTlv.from_value Raw.parse_all Raw.parse_loop
  step-confirmation s cmk ks imsk cb resp reply msk emsk t i c a f w v e b k =
      by_identity (is_user s.cfg.identity) refl
    where
      by_identity :
          (u : Bool)
          → is_user s.cfg.identity ≡ u
          → Machine.step process s (confirmation cb) ≡ (
            ok (
                done
                  (reply ∷ ResultTlv.to_tlv ResultStatus.success true ∷ [])
                  (success msk emsk none)),
            record s { cmk = some cmk; ks = ks; terminated = true },
          )
      by_identity true u = rw (t, i, c, a, f, w, v, e, b, k, u) refl
      by_identity false u = rw (t, i, c, a, f, w, v, e, b, k, u) refl

  -- A live session whose inner method has released its 32 octets and which has no key yet, under a
  -- MAC that keeps the laws: the server that absorbs the same octets into the same schedule gets a
  -- key; it can seal a request with any nonce of 32 octets under it; and on a message with a
  -- `Success` Intermediate-Result, that Crypto-Binding and a `Success` Result the session ends in
  -- success, with the keys of that schedule, after one reply and a `Success` Result.
  pub confirmation_succeeds :
      (s : TeapSession I) (imsk nonce : List ℕ)
      → MacLaws s.mac
      → s.terminated ≡ false
      → s.cmk ≡ none
      → s.imsk ≡ some imsk
      → length imsk ≡ 32
      → length nonce ≡ 32
      → (cmk : Cmk) × (ks : KeySchedule) × (cb : CryptoBindingTlv) × (reply : RawTlv) × (msk : List
          ℕ)
        × (emsk : List ℕ) × (absorb_inner s.mac s.ks imsk ≡ (ok cmk, ks))
        × (seal s.mac cmk (request_of nonce) ≡ ok cb)
        × (CryptoBindingTlv.to_tlv cb true ≡ ok (binding_tlv cb))
        × (derive_session_keys s.mac ks ≡ ok (msk, emsk))
        × (Machine.step process s (confirmation cb) ≡ (
          ok (
              done
                (reply ∷ ResultTlv.to_tlv ResultStatus.success true ∷ [])
                (success msk emsk none)),
          record s { cmk = some cmk; ks = ks; terminated = true },
        ))
  confirmation_succeeds s imsk nonce laws t c i full size =
      let cmk : Cmk = record { as_bytes = drop 40 (imck s.mac laws s.ks imsk) } in
      let ks : KeySchedule = record {
        s_imck = take 40 (imck s.mac laws s.ks imsk);
        methods = saturating_add s.ks.methods 1;
      } in
      let cb = sealed s.mac laws cmk (request_of nonce) in
      let resp = sealed s.mac laws cmk (Binding.as_response cb) in
      let nonce_len = sealed-nonce s.mac laws cmk (request_of nonce) size in
      let (reply, b) = binding_response-sealed s.mac laws cmk (Binding.as_response cb) nonce_len in
      let (k, _, _) = (derive_session_keys_lem s.mac laws ks).1 (omega arith) in
      let a = (absorb_inner_lem s.mac laws s.ks imsk).0 full in
      (
        cmk,
        ks,
        cb,
        reply,
        okm s.mac ks.s_imck label_msk 64,
        okm s.mac ks.s_imck label_emsk 64,
        a,
        seal_lem s.mac laws cmk (request_of nonce) size,
        to_tlv-sealed s.mac laws cmk (request_of nonce),
        k,
        step-confirmation s cmk ks imsk cb resp reply _ _ t i c a
            (from_value-sealed s.mac laws cmk (request_of nonce) size) (unfold sealed in refl)
            ((verify_iff s.mac laws cmk cb nonce_len (
                unfold sealed in
                laws.hmac-bytes cmk.as_bytes (macced (request_of nonce) s.mac.hash_len))).1
              (sealed-IsBound s.mac laws cmk (request_of nonce)))
            (seal_lem s.mac laws cmk (Binding.as_response cb) nonce_len) b k,
      )
