-- ===== src/Base/Within.antt =====
-- Words of 32 bits, and words whose bits lie within a mask.
use Prim.Native.Nat.{ℕ, zero, suc, ◌/◌, ◌^◌, ◌≤◌, ◌<◌, bit_and, bit_or}
use mathlib.Core.Path.{◌≡◌, ap}
use mathlib.Core.Bool.{Bool, true, false}
use native.Mathlib.Omega.{arith}
use qemu_spacewire.Base.Tests.{Bool_ext, if◌then◌else◌}
use qemu_spacewire.Base.Bits.{bit, bit-bit_and, bit-bit_or, bit_ext, bit_lt, bit-flag, flag}

abbrev pub IsWord : ℕ → Type 0
IsWord x = x < 2 ^ 32

-- Words that agree on 32 bits are equal.
pub word_ext : (a b : ℕ) → IsWord a → IsWord b → ((i : ℕ) → i < 32 → bit a i ≡ bit b i) → a ≡ b
word_ext a b p q h = bit_ext (2 ^ 32) a b (omega arith) (omega arith) λ i.
    Bool_ext (bit a i) (bit b i) (λ e. ground (arith, h i, bit_lt 32 a i))
      (λ e. ground (arith, h i, bit_lt 32 b i))

-- Every bit of `x` is a bit of `m`.
pub record Within (x m : ℕ) : Type 0 where
  pub bits : (i : ℕ) → bit x i ≡ true → bit m i ≡ true

pub Within-refl : (m : ℕ) → Within m m
Within-refl m = record { bits = λ i e. e }

pub Within-trans : {x m n : ℕ} → Within x m → Within m n → Within x n
Within-trans p q = record { bits = λ i e. q.bits i (p.bits i e) }

pub Within-bit_or : (a b m : ℕ) → Within a m → Within b m → Within (bit_or a b) m
Within-bit_or a b m p q = record {
  bits = λ i e. ground (arith, bit-bit_or a b i, p.bits i, q.bits i);
}

pub Within-bit_and_left : (a b m : ℕ) → Within a m → Within (bit_and a b) m
Within-bit_and_left a b m p = record { bits = λ i e. ground (arith, bit-bit_and a b i, p.bits i) }

pub Within-bit_and_right : (a b m : ℕ) → Within b m → Within (bit_and a b) m
Within-bit_and_right a b m p = record { bits = λ i e. ground (arith, bit-bit_and a b i, p.bits i) }

-- At numerals the premise is `refl`.
pub Within-of_bit_and : (x m : ℕ) → bit_and x m ≡ x → Within x m
Within-of_bit_and x m h = record {
  bits = λ i e. ground (arith, bit-bit_and x m i, ap (λ (t : ℕ). bit t i) h);
}

Within-le_fuel : (n x m : ℕ) → x ≤ n → ((i : ℕ) → bit x i ≡ true → bit m i ≡ true) → x ≤ m
unfolding bit
Within-le_fuel zero x m p h = omega arith
Within-le_fuel (suc n) x m p h =
    ground (arith, h 0, Within-le_fuel n (x / 2) (m / 2) (omega arith) (λ i. h (suc i)))

-- A word within a mask is at most the mask.
pub Within-le : {x m : ℕ} → Within x m → x ≤ m
Within-le {x} {m} w = Within-le_fuel x x m (omega arith) w.bits

pub Within-if : (c : Bool) (a b m : ℕ) → Within a m → Within b m → Within (if c then a else b) m
Within-if true a b m p q = p
Within-if false a b m p q = q

-- A mask without a bit that is not set.
pub Within-but : (x m n k : ℕ) → n ≡ bit_or m (flag k) → Within x n → bit x k ≡ false → Within x m
Within-but x m n k s w f = record {
  bits = λ i e.
      ground (arith, w.bits i e, bit-bit_or m (flag k) i, bit-flag k i, ap (λ (t : ℕ). bit t i) s);
}

pub Within-not : (x m k : ℕ) → Within x m → bit m k ≡ false → bit x k ≡ false
Within-not x m k w e = ground (arith, w.bits k)

-- What a mask is laid over lies within it.
pub Within-masked : (x m : ℕ) → Within (bit_and x m) m
Within-masked x m = Within-bit_and_right x m m (Within-refl m)
