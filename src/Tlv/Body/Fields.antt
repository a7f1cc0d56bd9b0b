-- ===== src/Tlv/Body/Fields.antt =====
-- crates/teap/src/tlv/body.rs: fields at an offset, and the status code of a result.
use usg_supplicant.Common.{
  ℕ, ◌+◌, Bool, List, Option, none, some, and_then, get_range, ◌==◌, if◌then◌else◌,
}
use usg_supplicant.Common.Bytes.{u16_from_be, u32_from_be}

unfoldable pub u16_at : List ℕ → ℕ → Option ℕ
u16_at body off = and_then (get_range off (off + 2) body) u16_from_be

unfoldable pub u32_at : List ℕ → ℕ → Option ℕ
u32_at body off = and_then (get_range off (off + 4) body) u32_from_be

-- `.filter(|_| test)`
abbrev pub keep_if {ℓ} : {A : Type ℓ} → Bool → Option A → Option A
keep_if b none = none
keep_if b (some a) = if b then some a else none

pub data ResultStatus : Type 0 where
  success failure : ResultStatus
  unknown : ℕ → ResultStatus

unfoldable pub status_from_u16 : ℕ → ResultStatus
status_from_u16 v = if v == 1 then success else if v == 2 then failure else unknown v

unfoldable pub status_to_u16 : ResultStatus → ℕ
status_to_u16 success = 1
status_to_u16 failure = 2
status_to_u16 (unknown v) = v
