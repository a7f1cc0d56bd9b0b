-- ===== src/Fips.antt =====
-- crates/fips-tls/src: the TLS tunnel, as its clients see it.
pub mod Client
pub mod Connect
pub mod Gate
pub mod Keeps
pub mod Secrets
pub mod Loops
use usg_supplicant.Common.{ℕ, Bool, List, Result}
use usg_supplicant.KeySchedule.{TeapMac}

-- What is not of the FIPS allow-list.
pub data Parameter : Type 0 where
  version suite kx_group : Parameter

-- The detail of a `rustls` error is not looked at.
pub data FipsTlsError : Type 0 where
  not_fips : FipsTlsError
  disallowed_parameter : Parameter → FipsTlsError
  bad_server_name no_negotiated_parameters handshake_incomplete not_established : FipsTlsError
  rustls : FipsTlsError

-- The methods of `TeapTlsClient` that the drivers call.
pub record Tunnel (T : Type 0) : Type 0 where
  pub take_outgoing : T → Result FipsTlsError (List ℕ) × T
  pub feed_incoming : List ℕ → T → Result FipsTlsError (Unit {0}) × T
  pub is_handshaking : T → Bool
  pub finish_handshake : T → Result FipsTlsError (Unit {0}) × T
  pub protect : List ℕ → T → Result FipsTlsError (List ℕ) × T
  pub unprotect : List ℕ → T → Result FipsTlsError (List ℕ) × T
  pub session_key_seed : T → Result FipsTlsError (List ℕ)
  pub export_keying_material : List ℕ → ℕ → T → Result FipsTlsError (List ℕ)
  pub negotiated_mac : T → Result FipsTlsError TeapMac
