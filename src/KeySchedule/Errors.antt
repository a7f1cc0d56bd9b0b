-- ===== src/KeySchedule/Errors.antt =====
-- crates/teap/src/error.rs: the errors of the key schedule.
use usg_supplicant.Common.{ℕ}

pub data KeyScheduleError : Type 0 where
  bad_seed_len : (actual : ℕ) → KeyScheduleError
  bad_imsk_len : (actual : ℕ) → KeyScheduleError
  bad_hash_len : KeyScheduleError
  output_too_long : (requested max : ℕ) → KeyScheduleError
  no_methods : KeyScheduleError
  internal : KeyScheduleError
