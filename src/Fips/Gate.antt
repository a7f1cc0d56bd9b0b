-- ===== src/Fips/Gate.antt =====
-- crates/fips-tls/src/backend.rs: `finish_handshake` and `negotiated_mac`.
use usg_supplicant.Common.{
  ℕ, Bool, true, false, Option, none, some, Result, ok, err, if◌then◌else◌, ◌==◌, ==_iff, ◌≡◌, refl,
  sym, subst, ap, arith,
}
use usg_supplicant.Common.Exec.{resume, modify, ◌>>=◌}
use usg_supplicant.KeySchedule.{TeapMac}
use usg_supplicant.Fips.{Parameter, FipsTlsError}
use usg_supplicant.Fips.Client
use usg_supplicant.Fips.Client.{Connection, Library, TeapTlsClient, aes_256_gcm_sha384}

-- The handshake of a connection was over, its version, suite and group are of the allow-list, and
-- the MAC is that of its suite.
pub record Approved {C : Type 0} (lib : Connection C) (libs : Library) (mac : TeapMac)
    : Type 0 where
  pub conn : C
  pub over : lib.is_handshaking conn ≡ false
  pub allowed :
      libs.enforce_fips_parameters
        (lib.protocol_version conn)
        (lib.negotiated_cipher_suite conn)
        (lib.negotiated_key_exchange_group conn)
      ≡ ok tt
  pub suite : lib.negotiated_cipher_suite conn ≡ some aes_256_gcm_sha384
  pub same_mac : mac ≡ libs.sha384

module _ {C : Type 0} (lib : Connection C) (libs : Library) where
  pub finish_handshake-inv :
      (s t : TeapTlsClient C)
      → Client.finish_handshake lib libs s ≡ (ok tt, t)
      → (lib.is_handshaking s.conn ≡ false)
        × (Client.enforce_fips_parameters lib libs s ≡ ok tt)
        × (t.conn ≡ s.conn)
  unfolding Client.finish_handshake ◌>>=◌
  finish_handshake-inv s t e = at_handshaking (lib.is_handshaking s.conn) refl e
    where
      at_enforced :
          (r : Result FipsTlsError (Unit {0}))
          → Client.enforce_fips_parameters lib libs s ≡ r
          → resume r (λ _. modify (λ s. record s { established = true })) s ≡ (ok tt, t)
          → (Client.enforce_fips_parameters lib libs s ≡ ok tt) × (t.conn ≡ s.conn)
      at_enforced (err x) f e = let no : ⊥ = cc e in elim no [ ]
      at_enforced (ok u) f e =
          (f, ap (λ (p : Result FipsTlsError (Unit {0}) × TeapTlsClient C). p.1.conn) (sym e))

      at_handshaking :
          (b : Bool)
          → lib.is_handshaking s.conn ≡ b
          → resume
              (Client.refuse_incomplete lib libs b s).0
              (λ _. Client.enforced lib libs >>= λ _. modify (λ s. record s { established = true }))
              (Client.refuse_incomplete lib libs b s).1
            ≡ (ok tt, t)
          → (lib.is_handshaking s.conn ≡ false)
            × (Client.enforce_fips_parameters lib libs s ≡ ok tt)
            × (t.conn ≡ s.conn)
      at_handshaking true h e = let no : ⊥ = cc e in elim no [ ]
      at_handshaking false h e =
          let (allowed, same) = at_enforced (Client.enforce_fips_parameters lib libs s) refl e in
          (h, allowed, same)

  mac_of_suite-inv :
      (o : Option ℕ) (mac : TeapMac)
      → Client.mac_of_suite lib libs o ≡ ok mac
      → (o ≡ some aes_256_gcm_sha384) × (mac ≡ libs.sha384)
  mac_of_suite-inv none mac e = let no : ⊥ = cc e in elim no [ ]
  mac_of_suite-inv (some suite) mac e = at_suite (suite == aes_256_gcm_sha384) refl e
    where
      at_suite :
          (b : Bool)
          → (suite == aes_256_gcm_sha384) ≡ b
          → (if b then ok libs.sha384 else err (FipsTlsError.disallowed_parameter Parameter.suite))
            ≡ ok mac
          → (some suite ≡ some aes_256_gcm_sha384) × (mac ≡ libs.sha384)
      at_suite true t e = (ap some (omega (arith, (==_iff suite aes_256_gcm_sha384).0 t)), cc e)
      at_suite false t e = let no : ⊥ = cc e in elim no [ ]

  negotiated_mac-inv :
      (s : TeapTlsClient C) (mac : TeapMac)
      → Client.negotiated_mac lib libs s ≡ ok mac
      → (lib.negotiated_cipher_suite s.conn ≡ some aes_256_gcm_sha384) × (mac ≡ libs.sha384)
  unfolding Client.negotiated_mac
  negotiated_mac-inv s mac e = go s.established e
    where
      go :
          (b : Bool)
          → (if b
              then Client.mac_of_suite lib libs (lib.negotiated_cipher_suite s.conn)
              else err FipsTlsError.not_established)
            ≡ ok mac
          → (lib.negotiated_cipher_suite s.conn ≡ some aes_256_gcm_sha384) × (mac ≡ libs.sha384)
      go true e = mac_of_suite-inv (lib.negotiated_cipher_suite s.conn) mac e
      go false e = let no : ⊥ = cc e in elim no [ ]

  -- What `finish_handshake` let pass and what then names its MAC is approved.
  pub finished-Approved :
      (s t : TeapTlsClient C) (mac : TeapMac)
      → Client.finish_handshake lib libs s ≡ (ok tt, t)
      → Client.negotiated_mac lib libs t ≡ ok mac
      → Approved lib libs mac
  unfolding Client.enforce_fips_parameters
  finished-Approved s t mac f n =
      let (over, allowed, same) = finish_handshake-inv s t f in
      let (suite, same_mac) = negotiated_mac-inv t mac n in
      record {
        conn = s.conn;
        over = over;
        allowed = allowed;
        suite = subst (λ c. lib.negotiated_cipher_suite c ≡ some aes_256_gcm_sha384) same suite;
        same_mac = same_mac;
      }
