-- ===== src/Util/Mask/Bits.antt =====
-- What each mask utility does to each bit of a 32-bit word.
use qemu_spacewire.Base.{
  ℕ, ◌+◌, ◌<◌, true, false, not, ◌&&◌, ◌||◌, ◌≡◌, ◌↔◌, ap, arith, bit_and, ==_iff, if◌then◌else◌,
  Bool_ext,
}
use qemu_spacewire.Base.Bits.{
  bit, flag, bit-bit_and, bit-bit_or, bit-bit_xor, bit-flag, bit-low_mask, bit_ext,
}
use qemu_spacewire.Base.Within.{Within}
use qemu_spacewire.Util.Mask.{bit_not, checkbit, setbit, clearbit, deposit}

pub bit-bit_not : (m i : ℕ) → i < 32 → bit (bit_not m) i ≡ not (bit m i)
unfolding bit_not
bit-bit_not m i h = ground (arith, bit-bit_xor m 0xffff_ffff i, bit-low_mask 32 i)

pub bit-setbit : (r m i : ℕ) → bit (setbit r m) i ≡ bit r i || bit m i
unfolding setbit
bit-setbit r m i = bit-bit_or r m i

pub bit-clearbit : (r m i : ℕ) → i < 32 → bit (clearbit r m) i ≡ bit r i && not (bit m i)
unfolding clearbit
bit-clearbit r m i h = ground (arith, bit-bit_and r (bit_not m) i, bit-bit_not m i h)

pub bit-deposit :
    (r m v i : ℕ) → i < 32 → bit (deposit r m v) i ≡ (if bit m i then bit v i else bit r i)
unfolding deposit
bit-deposit r m v i h = ground (
  arith,
  bit-bit_or (bit_and r (bit_not m)) (bit_and v m) i,
  bit-bit_and r (bit_not m) i,
  bit-bit_and v m i,
  bit-bit_not m i h,
)

-- On every bit of a word: `setbit` sets the bits of the mask and keeps the others, `clearbit`
-- clears them and keeps the others, `deposit` takes them from the value and keeps the others.
pub mask_utilities_bits :
    (reg mask value i : ℕ)
    → i < 32
    → (bit (setbit reg mask) i ≡ (if bit mask i then true else bit reg i))
      × (bit (clearbit reg mask) i ≡ (if bit mask i then false else bit reg i))
      × (bit (deposit reg mask value) i ≡ (if bit mask i then bit value i else bit reg i))
mask_utilities_bits reg mask value i h = (
  ground (arith, bit-setbit reg mask i),
  ground (arith, bit-clearbit reg mask i h),
  bit-deposit reg mask value i h,
)

-- `checkbit` holds exactly when every bit of the mask is set in the register.
pub checkbit_iff : (reg mask : ℕ) → (checkbit reg mask ≡ true) ↔ Within mask reg
unfolding checkbit
checkbit_iff reg mask = (
  λ e. record {
    bits = λ i b. ground (
      arith,
      (==_iff mask (bit_and reg mask)).0 e,
      ap (λ (t : ℕ). bit t i) ((==_iff mask (bit_and reg mask)).0 e),
      bit-bit_and reg mask i,
    );
  },
  λ w. (==_iff mask (bit_and reg mask)).1 (same w),
)
  where
    same : Within mask reg → mask ≡ bit_and reg mask
    same w =
        bit_ext (mask + bit_and reg mask) mask (bit_and reg mask) (omega arith) (omega arith)
          λ i. ground (arith, bit-bit_and reg mask i, w.bits i)

-- A test of one bit.
pub checkbit-flag : (r k : ℕ) → checkbit r (flag k) ≡ bit r k
checkbit-flag r k =
    Bool_ext (checkbit r (flag k)) (bit r k)
      (λ e. ((checkbit_iff r (flag k)).0 e).bits k (ground (arith, bit-flag k k)))
      (λ e.
        (checkbit_iff r (flag k)).1
          (record { bits = λ i b. let j : i ≡ k = ground (arith, bit-flag k i) in rw j e }))
