-- ===== src/Eaphost/Peer.antt =====
-- crates/eaphost/src/session.rs: `PeerSession`, over any driver.
use usg_supplicant.Common.{
  ℕ, Bool, true, false, List, Option, none, some, Result, ok, err, length, if◌then◌else◌,
}
use usg_supplicant.Session.Types.{FailReason, Outcome}
use usg_supplicant.Supplicant.Types.{DriverStep, DriverError}
pub mod Verdict
pub mod Approved

pub data SessionKind : Type 0 where
  machine user : SessionKind

-- The trait `TeapStep` of a driver with state `D`.
pub record TeapStep (D : Type 0) : Type 0 where
  pub step : List ℕ → D → Result DriverError DriverStep × D
  pub tunnel_established : D → Bool

pub data ProcessAction : Type 0 where
  respond finished : ProcessAction

pub data AuthResult : Type 0 where
  success : (msk : List ℕ) → (issued_mat : Option (List ℕ)) → AuthResult
  failure : FailReason → AuthResult

pub record PeerSession (D : Type 0) : Type 0 where
  pub kind : SessionKind
  pub driver : D
  pub pending_response : Option (List ℕ)
  pub result : Option AuthResult
  pub terminated : Bool

unfoldable pub new : {D : Type 0} → SessionKind → D → PeerSession D
new kind driver = record {
  kind = kind;
  driver = driver;
  pending_response = none;
  result = none;
  terminated = false;
}

abbrev pub auth_result : Outcome → AuthResult
auth_result (Outcome.success msk emsk mat) = AuthResult.success msk mat
auth_result (Outcome.failure reason) = AuthResult.failure reason

-- `if send.is_some() { self.pending_response = send; }`
abbrev pub final_response : Option (List ℕ) → Option (List ℕ) → Option (List ℕ)
final_response none pending = pending
final_response (some bytes) pending = some bytes

abbrev pub len_of : Option (List ℕ) → Option ℕ
len_of none = none
len_of (some bytes) = some (length bytes)

module _ {D : Type 0} where
  unfoldable pub finish : Outcome → PeerSession D → PeerSession D
  finish outcome s = record s { result = some (auth_result outcome); terminated = true }

  abbrev pub after_step :
      Result DriverError DriverStep → PeerSession D → ProcessAction × PeerSession D
  after_step (ok (DriverStep.respond resp)) s =
      (ProcessAction.respond, record s { pending_response = some resp })
  after_step (ok (DriverStep.finished send outcome)) s = (
    ProcessAction.finished,
    finish outcome (record s { pending_response = final_response send s.pending_response }),
  )
  after_step (err e) s =
      (ProcessAction.finished, finish (Outcome.failure FailReason.server_failure) s)

  unfoldable pub process : TeapStep D → PeerSession D → List ℕ → ProcessAction × PeerSession D
  process api s eap_request =
      if s.terminated
      then (ProcessAction.finished, s)
      else (let (r, d) = api.step eap_request s.driver in after_step r (record s { driver = d }))

  unfoldable pub take_response : PeerSession D → Option (List ℕ) × PeerSession D
  take_response s = (s.pending_response, record s { pending_response = none })

  unfoldable pub response_len : PeerSession D → Option ℕ
  response_len s = len_of s.pending_response

  abbrev pub established : TeapStep D → PeerSession D → Bool
  established api s = api.tunnel_established s.driver
