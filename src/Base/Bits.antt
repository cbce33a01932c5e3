-- ===== src/Base/Bits.antt =====
-- The bits of a number, one at a time, and what the native bit operations do to each.
use Prim.Native.Nat.{
  ℕ, zero, suc, ◌+◌, ◌-◌, ◌*◌, ◌/◌, ◌%◌, ◌^◌, ◌≤◌, ◌<◌, min, max, bit_and, bit_or, bit_xor, digits,
  differ, bit_and-bitwise, bit_or-bitwise, bit_xor-bitwise,
}
use mathlib.Core.Path.{◌≡◌, refl}
use mathlib.Core.Bool.{Bool, true, false, not, ◌&&◌, ◌||◌}
use native.Mathlib.Nat.{le_refl, pow-suc, one-le-pow}
use native.Mathlib.Omega.{arith}
use qemu_spacewire.Base.Tests.{◌==◌, ltb, if◌then◌else◌}

-- `(x >> i) & 1`, as a truth value.
unfoldable pub bit : ℕ → ℕ → Bool
bit x zero = x % 2 == 1
bit x (suc i) = bit (x / 2) i

pub bit-zero : (i : ℕ) → bit 0 i ≡ false
unfolding bit
bit-zero zero = refl
bit-zero (suc i) = bit-zero i

-- A native operation is given by what it does to two digits; `op` is that, as a truth table.
module _ (z : ℕ → ℕ) (f : ℕ → ℕ → ℕ) (op : Bool → Bool → Bool)
    (rest : (b i : ℕ) → bit (z b) i ≡ op false (bit b i))
    (table : (x y : ℕ) → x < 2 → y < 2 → (f x y < 2) × ((f x y == 1) ≡ op (x == 1) (y == 1))) where
  -- With as much fuel as the first number, every bit of the result is read off the table.
  bit-digits : (n a b i : ℕ) → a ≤ n → bit (digits z f n a b) i ≡ op (bit a i) (bit b i)
  unfolding bit
  bit-digits zero zero b i h = rw (bit-zero i) (rest b i)
  bit-digits zero (suc a) b i h = absurd (omega arith)
  bit-digits (suc n) zero b i h = rw (bit-zero i) (rest b i)
  bit-digits (suc n) (suc a) b zero h =
      let t = table (suc a % 2) (b % 2) (omega arith) (omega arith) in
      let e : (digits z f n (suc a / 2) (b / 2) * 2 + f (suc a % 2) (b % 2)) % 2
          ≡ f (suc a % 2) (b % 2) =
        omega (arith, t.0) in
      rw e t.1
  bit-digits (suc n) (suc a) b (suc i) h =
      let t = table (suc a % 2) (b % 2) (omega arith) (omega arith) in
      let e : (digits z f n (suc a / 2) (b / 2) * 2 + f (suc a % 2) (b % 2)) / 2
          ≡ digits z f n (suc a / 2) (b / 2) =
        omega (arith, t.0) in
      rw e (bit-digits n (suc a / 2) (b / 2) i (omega arith))

or_table : (x y : ℕ) → x < 2 → y < 2 → (max x y < 2) × ((max x y == 1) ≡ (x == 1) || (y == 1))
or_table x y p q = (ground arith, ground arith)

and_table : (x y : ℕ) → x < 2 → y < 2 → (min x y < 2) × ((min x y == 1) ≡ (x == 1) && (y == 1))
and_table x y p q = (ground arith, ground arith)

xor_table :
    (x y : ℕ)
    → x < 2
    → y < 2
    → (differ x y < 2) × ((differ x y == 1) ≡ (if x == 1 then not (y == 1) else (y == 1)))
xor_table zero zero p q = (omega arith, refl)
xor_table zero (suc zero) p q = (omega arith, refl)
xor_table (suc zero) zero p q = (omega arith, refl)
xor_table (suc zero) (suc zero) p q = (omega arith, refl)
xor_table zero (suc (suc y)) p q = absurd (omega arith)
xor_table (suc zero) (suc (suc y)) p q = absurd (omega arith)
xor_table (suc (suc x)) y p q = absurd (omega arith)

pub bit-bit_or : (a b i : ℕ) → bit (bit_or a b) i ≡ bit a i || bit b i
bit-bit_or a b i =
    rw (bit_or-bitwise a b)
      (bit-digits (λ y. y) max ◌||◌ (λ b i. refl) or_table a a b i (le_refl a))

pub bit-bit_and : (a b i : ℕ) → bit (bit_and a b) i ≡ bit a i && bit b i
bit-bit_and a b i =
    rw (bit_and-bitwise a b)
      (bit-digits (λ y. 0) min ◌&&◌ (λ b i. bit-zero i) and_table a a b i (le_refl a))

pub bit-bit_xor : (a b i : ℕ) → bit (bit_xor a b) i ≡ (if bit a i then not (bit b i) else bit b i)
bit-bit_xor a b i = rw (bit_xor-bitwise a b) (
    bit-digits (λ y. y) differ (λ x y. if x then not y else y) (λ b i. refl) xor_table a a b i
      (le_refl a))

-- The mask of one bit, `1U << k`.
unfoldable pub flag : ℕ → ℕ
flag k = 2 ^ k

pub bit-flag : (k i : ℕ) → bit (flag k) i ≡ (i == k)
unfolding bit flag
bit-flag zero zero = refl
bit-flag zero (suc i) = ground (arith, bit-zero i)
bit-flag (suc k) zero = ground (arith, pow-suc 2 k)
bit-flag (suc k) (suc i) =
    let e : 2 ^ suc k / 2 ≡ 2 ^ k = omega (arith, pow-suc 2 k) in
    rw e (ground (arith, bit-flag k i))

-- The mask of the `n` lowest bits.
pub bit-low_mask : (n i : ℕ) → bit (2 ^ n - 1) i ≡ ltb i n
unfolding bit
bit-low_mask zero i = ground (arith, bit-zero i)
bit-low_mask (suc n) zero = ground (arith, pow-suc 2 n, one-le-pow n 2)
bit-low_mask (suc n) (suc i) =
    let e : (2 ^ suc n - 1) / 2 ≡ 2 ^ n - 1 = omega (arith, pow-suc 2 n, one-le-pow n 2) in
    rw e (ground (arith, bit-low_mask n i))

-- A number below `2 ^ n` has no bit from `n` on.
pub bit_lt : (n x i : ℕ) → x < 2 ^ n → bit x i ≡ true → i < n
unfolding bit
bit_lt zero x i h e = let z : x ≡ 0 = omega arith in cc (z, bit-zero i, e)
bit_lt (suc n) x zero h e = omega arith
bit_lt (suc n) x (suc i) h e = omega (arith, bit_lt n (x / 2) i (omega (arith, pow-suc 2 n)) e)

-- Numbers with the same bits are equal.
pub bit_ext : (n a b : ℕ) → a ≤ n → b ≤ n → ((i : ℕ) → bit a i ≡ bit b i) → a ≡ b
unfolding bit
bit_ext zero a b p q h = omega arith
bit_ext (suc n) a b p q h =
    ground (arith, h 0, bit_ext n (a / 2) (b / 2) (omega arith) (omega arith) (λ i. h (suc i)))
