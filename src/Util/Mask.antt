-- ===== src/Util/Mask.antt =====
-- The register utilities of grspw/grlib_utilgrspw.c, on `uint32`.
pub mod Bits
pub mod Keeps
use qemu_spacewire.Base.{ℕ, Bool, bit_and, bit_or, bit_xor, ◌==◌}

-- `~x` on an unsigned 32-bit word.
unfoldable pub bit_not : ℕ → ℕ
bit_not x = bit_xor x 0xffff_ffff

unfoldable pub checkbit : ℕ → ℕ → Bool
checkbit reg mask = mask == bit_and reg mask

unfoldable pub setbit : ℕ → ℕ → ℕ
setbit reg mask = bit_or reg mask

unfoldable pub clearbit : ℕ → ℕ → ℕ
unfolding bit_not
clearbit reg mask = bit_and reg (bit_not mask)

unfoldable pub deposit : ℕ → ℕ → ℕ → ℕ
unfolding bit_not
deposit reg mask value = bit_or (bit_and reg (bit_not mask)) (bit_and value mask)
