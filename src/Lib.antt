-- ===== src/Lib.antt =====
-- The usg-TEAP supplicant: an EAP-TEAP client (RFC 9930) that authenticates a machine or a user
-- inside a TLS tunnel.
--
-- The parts, from the wire inwards. `Eap` is crates/teap/src/eap.rs: the EAP packet. Its Type-Data
-- is an outer TEAP message, `Outer` (crates/teap/src/outer.rs): flags, an optional length and a
-- piece of a TLS flight; `Outer.Fragment.fragment` cuts a flight and `Outer.Reassembler.push`
-- joins it. The decrypted content is a list of TLVs: `Tlv.Raw` (tlv/raw.rs) is their frame and
-- `Tlv.Body` (tlv/body.rs) the typed bodies, one module for each. `Session`
-- (crates/teap/src/session.rs) is the state machine over these TLVs: `Session.Machine.step` is
-- `TeapSession::step`, with one function for each numbered part of it, `Session.Binding` is
-- `handle_inner_success` and `find_crypto_binding`, and `Session.Flow` the early returns and
-- lookups. It uses `KeySchedule` (keyschedule.rs), the chain of compound keys, and `CryptoBind`
-- (cryptobind.rs), which seals and verifies the Crypto-Binding TLV. `Pac` (crates/pac/src) is the
-- stored Machine Authorization Ticket: the record and the two stores.
--
-- Above them stand the drivers. `Supplicant.Driver` (crates/supplicant/src/driver.rs) takes EAP
-- packets, drives the TLS tunnel and hands the decrypted TLVs to the session; `Supplicant.Inner`
-- (inner_tls.rs) is the inner method, a second TLS handshake. Both are written over `Fips.Tunnel`,
-- the methods of a TLS client as they call them; `Fips.Client` (crates/fips-tls/src/backend.rs) is
-- `TeapTlsClient`, whose methods fill that interface. `Eaphost.Peer`
-- (crates/eaphost/src/session.rs) is one session as the operating system sees it, over any driver,
-- `Eaphost.Registry` (session_registry.rs) the sessions by handle, and `Eaphost.Config` (config.rs)
-- the connection data of a profile. `Supplicant.Builder` and `Eaphost.Builder` (builder.rs of
-- both crates) make the driver of a profile, with the certificate that `Creds`
-- (crates/creds/src/selection.rs) selects; `Creds.KeyInfo` (keyinfo.rs) finds how its key signs and
-- `Creds.Ecdsa` (ecdsa.rs) writes a signature in DER. `Eaphost.Host` (peer.rs) is the state behind
-- the entry points, with the status that they publish, and `Eaphost.Host.Entry` the entry points of a session;
-- `Status` (crates/usg-status/src/lib.rs) is that status and its text form. `Eaphost.ConfigXml`
-- (config_xml.rs) is the connection data as hex text.
-- `Supplicant.Rules`, `Evidence`, `Sound`, `Carried` and `Phase2` carry what a success of the driver
-- rests on through its methods, `Measure` and `Rounds` what an answer uses up.
--
-- State. A `&mut self` method takes the state and returns its answer with the new state, also where
-- it fails: `Common.Exec` is the monad of such methods, and `Post` states what holds where one
-- returns. A step of the session is a chain of stages; a stage leaves with an answer or goes on
-- with the TLVs to send. A Rust `Result` is `Result` of Common, with the source's error types.
-- Octets are numbers; a theorem that needs them below 256 says so by `AreBytes`. Fields of a fixed
-- width are written with their division and remainder, and saturating operations with their bound;
-- `usize` has 64 bits.
--
-- Bounds. `parse_loop` runs on the number of TLVs that may still come, 4096 at first, which is the
-- source's own limit. `chunks_fuel` runs on the length of the message, which is enough since each
-- chunk takes an octet. `expand_loop` runs on the number of blocks, as the source's loop does. The
-- driver has no fuel: each call is one packet, and its own limits of 64 rounds bound the calls. The
-- loops of the TLS client run on the octets that wait to be sent or read, and on those it is fed:
-- each round takes one at least. The loop over roots in the connection data runs on their count,
-- which is a `u32`.
--
-- Parameters. The HMAC of `TeapMac` is a field of a record; `MacLaws` states that it returns as
-- many octets as the hash has, between 1 and 64. The tunnel of the drivers is a record of methods
-- on a state of any type; nothing is assumed of them. The connection of `rustls`, the allow-list of
-- `usg_fips_tls` and the SHA-384 MAC are parameters of the TLS client. The session takes the inner
-- method as the argument `process`. The sealer and the file system are arguments of the file store,
-- and the test for UTF-8 is one of the connection data. The builder of TLS configurations, the key
-- stores, the digest and the parser of certificates are records of their methods; what the operating
-- system answers is an argument (`World`) of each entry point.
--
-- Not modelled: the TLS library, the pointers and the memory of the C interface of EAPHost, its entry
-- points that hand out tables, identities and XML documents, and its registration (crates/eaphost);
-- the Windows key store and its adapter to the TLS library (crates/creds); the labels of a status, the
-- status window, the tray and the command line. Clearing of memory and constant time are not
-- visible in the model.
pub mod Common
pub mod Tlv
pub mod Eap
pub mod Outer
pub mod Pac
pub mod KeySchedule
pub mod CryptoBind
pub mod Session
pub mod Fips
pub mod Supplicant
pub mod Creds
pub mod Eaphost
pub mod Status
pub mod Examples
