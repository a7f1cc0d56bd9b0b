-- ===== src/Tlv/Body.antt =====
-- crates/teap/src/tlv/body.rs: the typed bodies, a module for each.
pub mod Fields
pub mod IdentityType
pub mod ResultTlv
pub mod ErrorTlv
pub mod EapPayloadTlv
pub mod IntermediateResultTlv
pub mod CryptoBindingTlv
pub mod NakTlv
pub mod VendorSpecificTlv
pub mod RoundTrip
pub mod Lengths
