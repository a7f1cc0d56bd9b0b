-- ===== src/KeySchedule.antt =====
-- crates/teap/src/keyschedule.rs: HKDF-Expand, the S-IMCK chain and the exported keys.
-- `HMAC-H` is the parameter `TeapMac`; octets are scrubbed by the source, which has no model here.
pub mod Errors
pub mod Expand
pub mod Chain
use usg_supplicant.KeySchedule.Errors.{
  KeyScheduleError, bad_seed_len, bad_imsk_len, bad_hash_len, output_too_long, no_methods, internal,
}
use usg_supplicant.Common.{
  ℕ, zero, suc, ◌+◌, ◌-◌, ◌*◌, ◌/◌, ◌%◌, ◌≤◌, ◌<◌, max, min, max_64, bit_and, bit_or, Bool, true,
  false, not, ◌&&◌, ◌||◌, List, [], ◌∷◌, ◌++◌, append-nil, append_assoc, Option, none, some, Result,
  ok, err, ◌>>=◌, ◌>>◌, guard, ok_or, and_then, unwrap_or, is_some, length, first, take, drop,
  replicate, get_range, get_from, is_empty, get_range-append, get_from-append, length-append,
  length-take, length-drop, take-append-drop, All, All-append, saturating_add, inl, inr, dec_lt,
  le→ltb, lt→ltb, leb, ltb, ◌==◌, if◌then◌else◌, ◌≡◌, ◌≢◌, ◌⊎◌, refl, sym, ap, subst, ◌∙◌, arith,
  le→leb, ==_iff, Bool-cases, Option-cases, Result-cases,
}
use usg_supplicant.Common.Text.{octets}

abbrev pub s_imck_len : ℕ
s_imck_len = 40

abbrev pub imsk_len : ℕ
imsk_len = 32

abbrev pub imck_len : ℕ
imck_len = 60

abbrev pub cmk_len : ℕ
cmk_len = imck_len - s_imck_len

abbrev pub session_key_len : ℕ
session_key_len = 64

abbrev pub label_inner_methods_compound_keys : List ℕ
label_inner_methods_compound_keys = octets "Inner Methods Compound Keys"

abbrev pub label_msk : List ℕ
label_msk = octets "Session Key Generating Function"

abbrev pub label_emsk : List ℕ
label_emsk = octets "Extended Session Key Generating Function"

-- The trait: the output length of `H`, and `HMAC-H(key, data)`.
pub record TeapMac : Type 0 where
  pub hash_len : ℕ
  pub hmac : List ℕ → List ℕ → List ℕ

pub record Cmk : Type 0 where
  pub as_bytes : List ℕ

-- `len.div_ceil(hash_len)`, for a `hash_len` that is not 0.
abbrev pub div_ceil : ℕ → ℕ → ℕ
div_ceil a b = if a % b == 0 then a / b else a / b + 1

abbrev pub saturating_mul : ℕ → ℕ → ℕ
saturating_mul a b = min (a * b) max_64

-- The loop `for i in 1..=blocks`: `left` rounds are to go, and `i` counts from 1.
unfoldable pub expand_loop :
    TeapMac
    → (prk info : List ℕ) → KeyScheduleError
    → (left i : ℕ) → (t okm : List ℕ) → Result KeyScheduleError (List ℕ)
expand_loop mac prk info too_long zero i t okm = ok okm
expand_loop mac prk info too_long (suc left) i t okm =
    let t' = mac.hmac prk (t ++ (info ++ (i ∷ []))) in
    let rest = expand_loop mac prk info too_long left (i + 1) t' (okm ++ t') in
    if leb i 255 then rest else err too_long

unfoldable pub hkdf_expand : TeapMac → (prk info : List ℕ) → ℕ → Result KeyScheduleError (List ℕ)
hkdf_expand mac prk info len = do
  guard (not (mac.hash_len == 0)) bad_hash_len
  let max_len = saturating_mul mac.hash_len 255
  guard (leb len max_len) (output_too_long len max_len)
  okm ← expand_loop mac prk info (output_too_long len max_len) (div_ceil len mac.hash_len) 1 [] []
  ok (take len okm)

pub record KeySchedule : Type 0 where
  pub s_imck : List ℕ
  pub methods : ℕ

unfoldable pub new : List ℕ → Result KeyScheduleError KeySchedule
new session_key_seed = do
  guard (length session_key_seed == s_imck_len) (bad_seed_len (length session_key_seed))
  ok (record { s_imck = session_key_seed; methods = 0 })

-- The block of 60 octets that `absorb_inner` cuts in two.
unfoldable pub imck_block : TeapMac → KeySchedule → List ℕ → Result KeyScheduleError (List ℕ)
imck_block mac ks imsk =
    hkdf_expand mac ks.s_imck (label_inner_methods_compound_keys ++ imsk) imck_len

-- The chain moved on, and the CMK.
unfoldable pub absorbed :
    TeapMac → KeySchedule → List ℕ → Result KeyScheduleError (Cmk × KeySchedule)
absorbed mac ks imsk = do
  guard (length imsk == imsk_len) (bad_imsk_len (length imsk))
  block ← imck_block mac ks imsk
  next ← ok_or (get_range 0 s_imck_len block) internal
  cmk ← ok_or (get_range s_imck_len imck_len block) internal
  ok (record { as_bytes = cmk }, record { s_imck = next; methods = saturating_add ks.methods 1 })

-- A call that fails leaves the chain as it was.
unfoldable pub absorb_inner :
    TeapMac → KeySchedule → List ℕ → Result KeyScheduleError Cmk × KeySchedule
absorb_inner mac ks imsk = elim (absorbed mac ks imsk) [
  | ok p ↦ (ok p.0, p.1)
  | err e ↦ (err e, ks)
]

unfoldable pub derive_session_keys :
    TeapMac → KeySchedule → Result KeyScheduleError (List ℕ × List ℕ)
derive_session_keys mac ks = do
  guard (not (ks.methods == 0)) no_methods
  msk ← hkdf_expand mac ks.s_imck label_msk session_key_len
  emsk ← hkdf_expand mac ks.s_imck label_emsk session_key_len
  ok (msk, emsk)
