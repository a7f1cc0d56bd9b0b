-- ===== src/Eaphost.antt =====
-- crates/eaphost/src: what stands between the operating system's calls and the driver.
pub mod Peer
pub mod Registry
pub mod Config
pub mod Builder
pub mod ConfigXml
pub mod Host
