-- ===== src/Supplicant/Types.antt =====
-- crates/supplicant/src/driver.rs and error.rs: the data of a driver.
use usg_supplicant.Common.{ℕ, List, Option}
use usg_supplicant.Tlv.Error.{TlvError}
use usg_supplicant.Fips.{FipsTlsError}
use usg_supplicant.Outer.{TeapOuter}
use usg_supplicant.Outer.Reassembler.{Reassembler}
use usg_supplicant.Session.Types.{Identity, Outcome, SessionError, TeapSession}

abbrev pub max_tls_message : ℕ
max_tls_message = 262144  -- 256 * 1024

abbrev pub max_handshake_rounds : ℕ
max_handshake_rounds = 64

abbrev pub max_phase2_rounds : ℕ
max_phase2_rounds = 64

pub record DriverConfig : Type 0 where
  pub identity : Identity
  pub server_name : List ℕ
  pub mat_vendor_id : ℕ
  pub mat_to_present : Option (List ℕ)
  pub max_fragment : ℕ

pub data DriverStep : Type 0 where
  respond : List ℕ → DriverStep
  finished : (send : Option (List ℕ)) → Outcome → DriverStep

-- The texts of `DriverError::Protocol`.
pub data Violation : Type 0 where
  success_before_result unexpected_code not_teap expected_start after_terminal_state : Violation
  handshake_rounds inner_used seed_rejected phase2_rounds no_session inner_construction : Violation

pub data DriverError : Type 0 where
  decode : TlvError → DriverError
  tls : FipsTlsError → DriverError
  session : SessionError → DriverError
  protocol : Violation → DriverError

pub data Phase : Type 0 where
  expect_start handshake phase2 terminated : Phase

-- `T` is the state of the tunnel and `I` that of the inner method.
pub record TeapDriver (T I : Type 0) : Type 0 where
  pub cfg : DriverConfig
  pub tunnel : T
  pub inner : Option I
  pub phase : Phase
  pub reasm : Reassembler
  pub out_queue : List TeapOuter
  pub session : Option (TeapSession I)
  pub pending : Option Outcome
  pub last_id : ℕ
  pub rounds : ℕ
