-- ===== src/Examples/Base.antt =====
-- A toy MAC that keeps the laws: 32 times the sum of the octets.
use usg_supplicant.Common.{ℕ, ◌+◌, ◌%◌, List, [], ◌∷◌, replicate, refl, arith}
use usg_supplicant.KeySchedule.{TeapMac, Cmk}
use usg_supplicant.KeySchedule.Expand.{MacLaws}

abbrev pub total : List ℕ → ℕ
total [] = 0
total (x ∷ xs) = x + total xs

abbrev pub toy_mac : TeapMac
toy_mac = record { hash_len = 32; hmac = λ key msg. replicate 32 ((total key + total msg) % 256) }

pub toy_mac-MacLaws : MacLaws toy_mac
toy_mac-MacLaws = record {
  length-hmac = λ key msg. refl;
  hmac-bytes = λ key msg. omega arith;
  hash_some = omega arith;
  hash_small = omega arith;
}

abbrev pub toy_cmk : Cmk
toy_cmk = record { as_bytes = replicate 20 7 }
