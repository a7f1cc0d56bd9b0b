-- ===== src/Session/Types.antt =====
-- crates/teap/src/session.rs: the data of a session.
use usg_supplicant.Common.{ℕ, Bool, true, false, List, [], ◌∷◌, Option, Result}
use usg_supplicant.KeySchedule.{TeapMac, Cmk, KeySchedule}
use usg_supplicant.KeySchedule.Errors.{KeyScheduleError}
use usg_supplicant.CryptoBind.Errors.{CryptoBindError}
use usg_supplicant.Tlv.Error.{TlvError}
use usg_supplicant.Tlv.Raw.{RawTlv}
use usg_supplicant.Tlv.TypeId
use usg_supplicant.Tlv.Body.IdentityType.{IdentityType}

abbrev pub critical_types : List ℕ
critical_types =
    TypeId.identity_type ∷ TypeId.intermediate_result ∷ TypeId.crypto_binding ∷ TypeId.result ∷ []

pub data Identity : Type 0 where
  machine user : Identity

unfoldable pub matches : Identity → IdentityType → Bool
matches machine IdentityType.machine = true
matches user IdentityType.user = true
matches _ _ = false

abbrev pub is_user : Identity → Bool
is_user user = true
is_user machine = false

pub record SessionConfig : Type 0 where
  pub identity : Identity
  pub mat_vendor_id : ℕ
  pub mat_to_present : Option (List ℕ)

pub data InnerStep : Type 0 where
  respond : List ℕ → InnerStep
  finished : List ℕ → InnerStep  -- `Done(imsk)`
  failed : InnerStep

pub data FailReason : Type 0 where
  identity_mismatch inner_failed missing_crypto_binding : FailReason
  crypto_binding : CryptoBindError → FailReason
  server_failure : FailReason
  key_schedule : KeyScheduleError → FailReason
  malformed_message bad_imsk bad_crypto_binding_fields : FailReason

pub data Outcome : Type 0 where
  success : (msk emsk : List ℕ) → (issued_mat : Option (List ℕ)) → Outcome
  failure : FailReason → Outcome

pub data SessionError : Type 0 where
  decode : TlvError → SessionError
  already_terminated : SessionError

pub data Step : Type 0 where
  continues : List RawTlv → Step
  done : (send : List RawTlv) → Outcome → Step

-- `I` is the state of the inner method.
pub record TeapSession (I : Type 0) : Type 0 where
  pub cfg : SessionConfig
  pub mac : TeapMac
  pub inner : I
  pub ks : KeySchedule
  pub cmk : Option Cmk
  pub imsk : Option (List ℕ)
  pub presented_mat : Bool
  pub terminated : Bool

abbrev pub Answer : Type 0
Answer = Result SessionError Step
