-- ===== src/Tlv.antt =====
-- The TEAP TLV codec, crates/teap/src/tlv: the error type, the type numbers, the generic frame,
-- and the typed bodies.
pub mod Error
pub mod TypeId
pub mod Raw
pub mod Body
