-- ===== src/Fips/Client.antt =====
-- crates/fips-tls/src/backend.rs: the TLS client of a tunnel, over a connection of the TLS library.
use usg_supplicant.Common.{
  ℕ, zero, suc, Bool, true, false, List, [], ◌∷◌, ◌++◌, Option, none, some, Result, ok, err,
  map_err, unwrap_or, length, get_from, ltb, ◌==◌, if◌then◌else◌,
}
use usg_supplicant.Common.Text.{octets}
use usg_supplicant.Common.Exec.{Exec, pure, fail, modify, ◌>>=◌, ◌>>◌}
use usg_supplicant.KeySchedule.{TeapMac, s_imck_len}
use usg_supplicant.Fips.{Parameter, FipsTlsError, Tunnel}

-- The kinds of an I/O error that the code tells apart.
pub data ReadError : Type 0 where
  would_block unexpected_eof other : ReadError

-- `rustls::ClientConnection`. `queued` and `buffered` are the octets that wait to be sent and to be
-- read; the connection wants to write while some are queued.
pub record Connection (C : Type 0) : Type 0 where
  pub is_handshaking : C → Bool
  pub queued : C → ℕ
  pub write_tls : C → Result (Unit {0}) (List ℕ) × C
  pub read_tls : List ℕ → C → Result (Unit {0}) ℕ × C
  pub process_new_packets : C → Result (Unit {0}) (Unit {0}) × C
  pub write_all : List ℕ → C → Result (Unit {0}) (Unit {0}) × C
  pub buffered : C → ℕ
  pub read : ℕ → C → Result ReadError (List ℕ) × C
  pub export_keying_material : List ℕ → ℕ → C → Result (Unit {0}) (List ℕ)
  pub protocol_version : C → Option ℕ
  pub negotiated_cipher_suite : C → Option ℕ
  pub negotiated_key_exchange_group : C → Option ℕ

-- What else the client calls: the allow-list of `usg_fips_tls` and the MAC of SHA-384.
pub record Library : Type 0 where
  pub enforce_fips_parameters : (version suite group : Option ℕ) → Result FipsTlsError (Unit {0})
  pub sha384 : TeapMac

pub record TeapTlsClient (C : Type 0) : Type 0 where
  pub conn : C
  pub established : Bool

-- `connected` is the server name, checked, and the new connection.
unfoldable pub connect :
    {C : Type 0} → (connected : Result FipsTlsError C) → Result FipsTlsError (TeapTlsClient C)
connect (err e) = err e
connect (ok conn) = ok (record { conn = conn; established = false })

-- `CipherSuite::TLS13_AES_256_GCM_SHA384`
abbrev pub aes_256_gcm_sha384 : ℕ
aes_256_gcm_sha384 = 0x1302

abbrev pub exporter_label_session_key_seed : List ℕ
exporter_label_session_key_seed = octets "EXPORTER: teap session key seed"

-- The size of the buffer that is read into.
abbrev pub chunk_len : ℕ
chunk_len = 4096

abbrev pub Act : (C A : Type 0) → Type 0
Act C A = Exec FipsTlsError (TeapTlsClient C) A

abbrev pub as_rustls : {E A : Type 0} → Result E A → Result FipsTlsError A
as_rustls r = map_err (λ _. FipsTlsError.rustls) r

module _ {C : Type 0} (lib : Connection C) where
  abbrev pub on_conn : {E A : Type 0} → (C → Result E A × C) → Act C A
  on_conn m s = let (r, c) = m s.conn in (as_rustls r, record s { conn = c })

  unfoldable pub require_established : Act C (Unit {0})
  require_established s = (if s.established then ok tt else err FipsTlsError.not_established, s)

  -- The loop of `take_outgoing`, for as many rounds as octets are queued.
  unfoldable pub write_out : ℕ → List ℕ → Act C (List ℕ)
  write_out zero out s = (ok out, s)
  write_out (suc n) out s =
      (if ltb 0 (lib.queued s.conn)
          then (do bytes ← on_conn lib.write_tls; write_out n (out ++ bytes))
          else pure out)
        s

  unfoldable pub take_outgoing : Act C (List ℕ)
  take_outgoing s = write_out (lib.queued s.conn) [] s

  -- One round of `feed_incoming`, with the rest of the rounds.
  abbrev pub after_read : (List ℕ → Act C (Unit {0})) → List ℕ → ℕ → Act C (Unit {0})
  after_read again rest read =
      if read == 0
      then pure tt
      else (do on_conn lib.process_new_packets; again (unwrap_or (get_from read rest) []))

  unfoldable pub feed : ℕ → List ℕ → Act C (Unit {0})
  feed n [] = pure tt
  feed zero (x ∷ rest) = pure tt
  feed (suc n) (x ∷ rest) = do
    read ← on_conn (lib.read_tls (x ∷ rest))
    after_read (feed n) (x ∷ rest) read

  unfoldable pub feed_incoming : List ℕ → Act C (Unit {0})
  feed_incoming records = feed (length records) records

  unfoldable pub protect : List ℕ → Act C (List ℕ)
  protect plaintext = do require_established; on_conn (lib.write_all plaintext); take_outgoing

  -- What one read of plaintext means for the loop of `unprotect`.
  abbrev pub after_chunk :
      (List ℕ → Act C (List ℕ)) → List ℕ → Result ReadError (List ℕ) → Act C (List ℕ)
  after_chunk again out (ok []) = pure out
  after_chunk again out (ok (x ∷ chunk)) = again (out ++ x ∷ chunk)
  after_chunk again out (err ReadError.other) = fail FipsTlsError.rustls
  after_chunk again out (err _) = pure out

  unfoldable pub read_out : ℕ → List ℕ → Act C (List ℕ)
  read_out zero out s = (ok out, s)
  read_out (suc n) out s =
      let (r, c) = lib.read chunk_len s.conn in
      after_chunk (read_out n) out r (record s { conn = c })

  unfoldable pub drain : Act C (List ℕ)
  drain s = read_out (suc (lib.buffered s.conn)) [] s

  unfoldable pub unprotect : List ℕ → Act C (List ℕ)
  unprotect records = do require_established; feed_incoming records; drain

  -- A method that only reads, behind the gate.
  abbrev pub gated : {A : Type 0} → TeapTlsClient C → Result FipsTlsError A → Result FipsTlsError A
  gated s r = if s.established then r else err FipsTlsError.not_established

  unfoldable pub export_keying_material :
      List ℕ → ℕ → TeapTlsClient C → Result FipsTlsError (List ℕ)
  export_keying_material label len s =
      gated s (as_rustls (lib.export_keying_material label len s.conn))

  unfoldable pub session_key_seed : TeapTlsClient C → Result FipsTlsError (List ℕ)
  session_key_seed s =
      gated s
        (as_rustls (lib.export_keying_material exporter_label_session_key_seed s_imck_len s.conn))

  module _ (libs : Library) where
    abbrev pub mac_of_suite : Option ℕ → Result FipsTlsError TeapMac
    mac_of_suite none = err FipsTlsError.no_negotiated_parameters
    mac_of_suite (some suite) =
        if suite == aes_256_gcm_sha384
        then ok libs.sha384
        else err (FipsTlsError.disallowed_parameter Parameter.suite)

    unfoldable pub negotiated_mac : TeapTlsClient C → Result FipsTlsError TeapMac
    negotiated_mac s = gated s (mac_of_suite (lib.negotiated_cipher_suite s.conn))

    unfoldable pub enforce_fips_parameters : TeapTlsClient C → Result FipsTlsError (Unit {0})
    enforce_fips_parameters s =
        libs.enforce_fips_parameters (lib.protocol_version s.conn)
          (lib.negotiated_cipher_suite s.conn) (lib.negotiated_key_exchange_group s.conn)

    abbrev pub refuse_incomplete : Bool → Act C (Unit {0})
    refuse_incomplete true = fail FipsTlsError.handshake_incomplete
    refuse_incomplete false = pure tt

    abbrev pub enforced : Act C (Unit {0})
    enforced s = (enforce_fips_parameters s, s)

    unfoldable pub finish_handshake : Act C (Unit {0})
    finish_handshake = do
      (λ s. refuse_incomplete (lib.is_handshaking s.conn) s)
      enforced
      modify (λ s. record s { established = true })

    -- The methods as the drivers see them.
    unfoldable pub tunnel : Tunnel (TeapTlsClient C)
    tunnel = record {
      take_outgoing = take_outgoing;
      feed_incoming = feed_incoming;
      is_handshaking = λ s. lib.is_handshaking s.conn;
      finish_handshake = finish_handshake;
      protect = protect;
      unprotect = unprotect;
      session_key_seed = session_key_seed;
      export_keying_material = export_keying_material;
      negotiated_mac = negotiated_mac;
    }
