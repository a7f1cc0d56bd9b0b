-- ===== src/CryptoBind/Errors.antt =====
-- crates/teap/src/error.rs: the errors of crypto-binding.
use usg_supplicant.Common.{ℕ}
use usg_supplicant.Tlv.Error.{TlvError}

pub data CryptoBindError : Type 0 where
  bad_mac_len : (expected actual : ℕ) → CryptoBindError
  emsk_mac_not_zero : CryptoBindError
  mac_mismatch : CryptoBindError
  encode : TlvError → CryptoBindError
