-- ===== src/Fips/Connect.antt =====
-- crates/fips-tls/src/backend.rs: the configuration of a TLS client and its connection.
use usg_supplicant.Common.{ℕ, Bool, List, Result, ok, map_err, guard, ◌>>=◌, ◌>>◌}
use usg_supplicant.Fips.{FipsTlsError}
use usg_supplicant.Fips.Client
use usg_supplicant.Fips.Client.{TeapTlsClient}

-- A resolver is of any type; certificates and keys are octets.
pub data ClientAuth (R : Type 0) : Type 0 where
  nobody : ClientAuth R  -- `None`
  software_cert : (chain : List (List ℕ)) → (key : List ℕ) → ClientAuth R
  resolver : R → ClientAuth R

-- What `client_config` and `connect` call of `rustls`: the builder over the FIPS provider, its
-- configurations, the test of `ServerName` and the new connection with its buffer limit.
pub record Rustls (R B F C : Type 0) : Type 0 where
  pub with_protocol_versions : Result (Unit {0}) B
  pub with_root_certificates : List (List ℕ) → B → B
  pub with_no_client_auth : B → F
  pub with_client_auth_cert : List (List ℕ) → List ℕ → B → Result (Unit {0}) F
  pub with_client_cert_resolver : R → B → F
  pub server_name : List ℕ → Bool
  pub new_connection : F → List ℕ → Result (Unit {0}) C

module _ {R B F C : Type 0} (rustls : Rustls R B F C) where
  abbrev pub with_auth : ClientAuth R → B → Result FipsTlsError F
  with_auth ClientAuth.nobody builder = ok (rustls.with_no_client_auth builder)
  with_auth (ClientAuth.software_cert chain key) builder =
      map_err (λ _. FipsTlsError.rustls) (rustls.with_client_auth_cert chain key builder)
  with_auth (ClientAuth.resolver r) builder = ok (rustls.with_client_cert_resolver r builder)

  unfoldable pub client_config : (roots : List (List ℕ)) → ClientAuth R → Result FipsTlsError F
  client_config roots client_auth = do
    builder ← map_err (λ _. FipsTlsError.rustls) rustls.with_protocol_versions
    with_auth client_auth (rustls.with_root_certificates roots builder)

  -- The new connection of `connect`.
  unfoldable pub connection : F → (server_name : List ℕ) → Result FipsTlsError C
  connection config name = do
    guard (rustls.server_name name) FipsTlsError.bad_server_name
    map_err (λ _. FipsTlsError.rustls) (rustls.new_connection config name)

  abbrev pub connect : F → (server_name : List ℕ) → Result FipsTlsError (TeapTlsClient C)
  connect config name = Client.connect (connection config name)
