-- ===== src/Eaphost/Host/Prepared.antt =====
-- crates/eaphost/src/peer.rs and builder.rs: what a session that was begun was made of.
use usg_supplicant.Common.{
  ℕ, Bool, true, false, not, List, Option, none, some, Result, ok, err, is_empty, map_err,
  >>=-eq-ok, and_then-eq-some, map_err-eq-ok, ◌≡◌, refl, ap, subst,
}
use usg_supplicant.Fips.Client.{TeapTlsClient}
use usg_supplicant.Fips.Connect.{ClientAuth, Rustls, client_config, connect}
use usg_supplicant.Supplicant.Types.{DriverError, Violation}
use usg_supplicant.Supplicant.Driver
use usg_supplicant.Supplicant.Inner
use usg_supplicant.Supplicant.Inner.{EapTlsInner}
use usg_supplicant.Supplicant.Builder.{Wired, new_driver, assemble_driver}
use usg_supplicant.Eaphost.Config.{SessionConfigBlob, from_bytes}
use usg_supplicant.Eaphost.Builder
use usg_supplicant.Eaphost.Builder.{KeyStores}
use usg_supplicant.Eaphost.Host.{World, Platform}
use usg_supplicant.Eaphost.Host.Entry.{
  Prepared, Entry, begins, to_option, require, prepare, prepared_with, driver_config_of,
  selector_of, identity_of, run, get_result, is_success,
}
use usg_supplicant.Eaphost.Host.Entry

to_option-eq-some : {E A : Type 0} (r : Result E A) (a : A) → to_option r ≡ some a → r ≡ ok a
to_option-eq-some (ok x) a e = cc e
to_option-eq-some (err x) a e = let no : ⊥ = cc e in elim no [ ]

require-eq-some : (b : Bool) (u : Unit {0}) → require b ≡ some u → b ≡ true
require-eq-some true u e = refl
require-eq-some false u e = let no : ⊥ = cc e in elim no [ ]

not-eq-true : (b : Bool) → not b ≡ true → b ≡ false
not-eq-true true e = let no : ⊥ = cc e in elim no [ ]
not-eq-true false e = refl

-- A begin of a session came this far.
pub record Passed {D : Type 0} (os : Platform D) (w : World) (blob : List ℕ) (p : Prepared D)
    : Type 0 where
  pub cfg : SessionConfigBlob
  pub thumbprint : List ℕ
  pub fips : w.fips ≡ true
  pub parsed : from_bytes os.utf8 blob ≡ ok cfg
  pub rooted : is_empty cfg.roots ≡ false
  pub built :
      os.build_driver (driver_config_of cfg) cfg.roots (selector_of cfg) ≡ ok (p.driver, thumbprint)

module _ {D : Type 0} (os : Platform D) where
  pub prepare-Passed :
      (w : World) (blob : List ℕ) (p : Prepared D) → prepare os w blob ≡ some p → Passed os w blob p
  unfolding prepare
  prepare-Passed w blob p e =
      let (u, f, e1) = and_then-eq-some (require w.fips) _ p e in
      let (cfg, c, e2) = and_then-eq-some (to_option (from_bytes os.utf8 blob)) _ p e1 in
      let (_, _, e3) = and_then-eq-some (Entry.add_roots os.trust_anchor cfg.roots) _ p e2 in
      let (v, g, e4) = and_then-eq-some (require (not (is_empty cfg.roots))) _ p e3 in
      let (thumbprint, b) =
        with_driver cfg
          (to_option (os.build_driver (driver_config_of cfg) cfg.roots (selector_of cfg))) e4 in
      record {
        cfg = cfg;
        thumbprint = thumbprint;
        fips = require-eq-some w.fips u f;
        parsed = to_option-eq-some (from_bytes os.utf8 blob) cfg c;
        rooted = not-eq-true (is_empty cfg.roots) (require-eq-some (not (is_empty cfg.roots)) v g);
        built =
            to_option-eq-some (os.build_driver (driver_config_of cfg) cfg.roots (selector_of cfg))
              (p.driver, thumbprint) b;
      }
    where
      with_driver :
          (cfg : SessionConfigBlob) (o : Option (D × List ℕ))
          → prepared_with os cfg o ≡ some p
          → (thumbprint : List ℕ) × (o ≡ some (p.driver, thumbprint))
      with_driver cfg none e = let no : ⊥ = cc e in elim no [ ]
      with_driver cfg (some (d, thumbprint)) e =
          let same : d ≡ p.driver = ap (λ o. elim o [ none ↦ d | some q ↦ q.driver ]) e in
          (thumbprint, ap (λ x. some (x, thumbprint)) same)

module _ {R B F C : Type 0} (stores : KeyStores R) (rustls : Rustls R B F C) where
  -- The driver of a profile, made by the code: both TLS clients have its trust anchors and expect
  -- its server, and the inner one has the credential of its identity.
  pub record Assembled (cfg : SessionConfigBlob) (d : Wired C) : Type 0 where
    pub signer : R
    pub config : F
    pub inner_config : F
    pub inner : EapTlsInner (TeapTlsClient C)
    pub signed :
        Builder.signer_of stores rustls (identity_of cfg.machine) (selector_of cfg) ≡ ok signer
    pub configured : client_config rustls cfg.roots ClientAuth.nobody ≡ ok config
    pub inner_configured :
        client_config rustls cfg.roots (ClientAuth.resolver signer) ≡ ok inner_config
    pub inner_made :
        Inner.new (connect rustls inner_config cfg.server_name) cfg.max_fragment ≡ ok inner
    pub made :
        Driver.new (driver_config_of cfg) (connect rustls config cfg.server_name) inner ≡ ok d

  pub build_driver-Assembled :
      (cfg : SessionConfigBlob) (d : Wired C) (thumbprint : List ℕ)
      → Builder.build_driver stores rustls (driver_config_of cfg) cfg.roots (selector_of cfg)
        ≡ ok (d, thumbprint)
      → Assembled cfg d
  unfolding Builder.build_driver assemble_driver new_driver
  build_driver-Assembled cfg d thumbprint e =
      let (signer, s, e1) =
        >>=-eq-ok
          (map_err Builder.BuildError.credential
            (Builder.signer_of stores rustls (identity_of cfg.machine) (selector_of cfg)))
          _ e in
      let (built, b, e2) =
        >>=-eq-ok
          (map_err Builder.BuildError.driver
            (assemble_driver rustls (driver_config_of cfg) cfg.roots (ClientAuth.resolver signer)))
          _ e1 in
      let same : built ≡ d = cc e2 in
      let assembled =
        map_err-eq-ok Builder.BuildError.driver
          (assemble_driver rustls (driver_config_of cfg) cfg.roots (ClientAuth.resolver signer))
          built b in
      let (inner_config, c, e3) =
        >>=-eq-ok
          (map_err DriverError.tls (client_config rustls cfg.roots (ClientAuth.resolver signer))) _
          assembled in
      let (inner, i, e4) =
        >>=-eq-ok
          (map_err (λ _. DriverError.protocol Violation.inner_construction)
            (Inner.new (connect rustls inner_config cfg.server_name) cfg.max_fragment))
          _ e3 in
      let (config, o, e5) =
        >>=-eq-ok (map_err DriverError.tls (client_config rustls cfg.roots ClientAuth.nobody)) _
          e4 in
      record {
        signer = signer;
        config = config;
        inner_config = inner_config;
        inner = inner;
        signed = map_err-eq-ok Builder.BuildError.credential _ signer s;
        configured = map_err-eq-ok DriverError.tls _ config o;
        inner_configured = map_err-eq-ok DriverError.tls _ inner_config c;
        inner_made =
            map_err-eq-ok (λ _. DriverError.protocol Violation.inner_construction) _ inner i;
        made =
            subst
              (λ x.
                Driver.new (driver_config_of cfg) (connect rustls config cfg.server_name) inner
                ≡ ok x)
              same e5;
      }
