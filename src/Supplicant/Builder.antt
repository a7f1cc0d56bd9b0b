-- ===== src/Supplicant/Builder.antt =====
-- crates/supplicant/src/builder.rs: the driver with its inner method.
use usg_supplicant.Common.{ℕ, List, Result, map_err, ◌>>=◌}
use usg_supplicant.Fips.Client.{TeapTlsClient}
use usg_supplicant.Fips.Connect.{ClientAuth, Rustls, client_config, connect}
use usg_supplicant.Supplicant.Types.{
  DriverConfig, DriverError, tls, protocol, TeapDriver, inner_construction,
}
use usg_supplicant.Supplicant.Driver
use usg_supplicant.Supplicant.Inner
use usg_supplicant.Supplicant.Inner.{EapTlsInner}

abbrev pub Wired : Type 0 → Type 0
Wired C = TeapDriver (TeapTlsClient C) (EapTlsInner (TeapTlsClient C))

module _ {R B F C : Type 0} (rustls : Rustls R B F C) where
  -- The outer tunnel has no client certificate.
  unfoldable pub new_driver :
      DriverConfig
      → (roots : List (List ℕ)) → EapTlsInner (TeapTlsClient C)
      → Result DriverError (Wired C)
  new_driver cfg roots inner = do
    config ← map_err tls (client_config rustls roots ClientAuth.nobody)
    Driver.new cfg (connect rustls config cfg.server_name) inner

  unfoldable pub assemble_driver :
      DriverConfig → (roots : List (List ℕ)) → ClientAuth R → Result DriverError (Wired C)
  assemble_driver cfg roots client_auth = do
    inner_config ← map_err tls (client_config rustls roots client_auth)
    inner ←
        map_err (λ _. protocol inner_construction)
          (Inner.new (connect rustls inner_config cfg.server_name) cfg.max_fragment)
    new_driver cfg roots inner
