-- ===== src/Supplicant.antt =====
-- crates/supplicant/src: the driver of the outer exchange. The TLS tunnel is an interface.
pub mod Types
pub mod Driver
pub mod Rules
pub mod Evidence
pub mod Sound
pub mod Carried
pub mod Phase2
pub mod Measure
pub mod Rounds
pub mod Ends
pub mod Inner
pub mod Builder
