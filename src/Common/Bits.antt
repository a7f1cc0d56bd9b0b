-- ===== src/Common/Bits.antt =====
-- Masks on one and two bytes as arithmetic; each is a table, checked by evaluation.
use Prim.Native.Nat.{ℕ, zero, suc, ◌*◌, ◌/◌, ◌%◌, ◌<◌, ◌+◌, bit_and, bit_or}
use mathlib.Core.Path.{◌≡◌, refl}
use mathlib.Core.Bool.{Bool, true, false}
use mathlib.Core.Logic.{ite}
use native.Mathlib.Decide.{ℕ_discrete}
use native.Mathlib.Omega.{arith}

module _ (f g : ℕ → ℕ) where
  unfoldable pub agree_below : ℕ → Bool
  unfolding ℕ_discrete
  agree_below zero = true
  agree_below (suc n) = ite (ℕ_discrete (f n) (g n)) (agree_below n) false

  pub agree_below→eq : (n : ℕ) → agree_below n ≡ true → (i : ℕ) → i < n → f i ≡ g i
  unfolding agree_below
  agree_below→eq zero e i h = absurd (omega arith)
  agree_below→eq (suc n) e i h = ground (arith, agree_below→eq n (ground arith) i)

pub mask_14 : (w : ℕ) → w < 65536 → bit_and w 0x3fff ≡ w % 16384
unfolding agree_below
mask_14 = agree_below→eq _ _ 65536 refl

pub mask_15 : (w : ℕ) → w < 65536 → bit_and w 0x8000 ≡ w / 32768 * 32768
unfolding agree_below
mask_15 = agree_below→eq _ _ 65536 refl

pub mask_high_2 : (w : ℕ) → w < 65536 → bit_and w 0xc000 ≡ w / 16384 * 16384
unfolding agree_below
mask_high_2 = agree_below→eq _ _ 65536 refl

pub set_15 : (w : ℕ) → w < 32768 → bit_or w 0x8000 ≡ w + 32768
unfolding agree_below
set_15 = agree_below→eq _ _ 32768 refl

pub mask_7 : (b : ℕ) → b < 256 → bit_and b 0x80 ≡ b / 128 * 128
unfolding agree_below
mask_7 = agree_below→eq _ _ 256 refl
