-- ===== src/Util/Mask/Keeps.antt =====
-- The mask utilities keep a word within a mask.
use qemu_spacewire.Base.{ℕ, arith, bit_and}
use qemu_spacewire.Base.Bits.{bit-low_mask, bit_lt}
use qemu_spacewire.Base.Within.{
  IsWord, Within, Within-le, Within-bit_or, Within-bit_and_left, Within-bit_and_right,
}
use qemu_spacewire.Util.Mask.{bit_not, setbit, clearbit, deposit}

module _ (r m v t : ℕ) where
  pub Within-setbit : Within r t → Within m t → Within (setbit r m) t
  unfolding setbit
  Within-setbit p q = Within-bit_or r m t p q

  pub Within-clearbit : Within r t → Within (clearbit r m) t
  unfolding clearbit
  Within-clearbit p = Within-bit_and_left r (bit_not m) t p

  pub Within-deposit : Within r t → Within m t → Within (deposit r m v) t
  unfolding deposit
  Within-deposit p q =
      Within-bit_or (bit_and r (bit_not m)) (bit_and v m) t (Within-bit_and_left r (bit_not m) t p)
        (Within-bit_and_right v m t q)

-- A word is a number within the mask of all 32 bits.
pub Within-of_IsWord : (x : ℕ) → IsWord x → Within x 0xffff_ffff
Within-of_IsWord x w = record { bits = λ i e. ground (arith, bit-low_mask 32 i, bit_lt 32 x i w e) }

pub deposit-IsWord : (x m y : ℕ) → IsWord x → IsWord m → IsWord (deposit x m y)
deposit-IsWord x m y p q = omega (
  arith,
  Within-le (Within-deposit x m y 0xffff_ffff (Within-of_IsWord x p) (Within-of_IsWord m q)),
)
