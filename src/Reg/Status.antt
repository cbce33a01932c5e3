-- ===== src/Reg/Status.antt =====
-- grlib_reggrspw_write_str and grlib_reggrspw_write_chn: which bits a write clears, sets and keeps.
use qemu_spacewire.Base.{ℕ, ◌<◌, Bool, not, ◌&&◌, ◌||◌, ◌≡◌, arith, bit_and, ◌==◌, if◌then◌else◌}
use qemu_spacewire.Base.Bits.{bit, flag, bit-bit_and, bit-bit_or, bit-flag}
use qemu_spacewire.Util.Mask.{checkbit, setbit, clearbit, deposit}
use qemu_spacewire.Util.Mask.Bits.{bit-setbit, bit-clearbit, bit-deposit, checkbit-flag}
use qemu_spacewire.Reg.{Registers, clear_written, write_str, write_chn}

bit-clear_written :
    (value k reg i : ℕ)
    → i < 32
    → bit (clear_written value (flag k) reg) i ≡ bit reg i && not (bit value i && bit (flag k) i)
unfolding clear_written
bit-clear_written value k reg i h =
    ground (arith, checkbit-flag value k, bit-clearbit reg (flag k) i h, bit-flag k i)

-- The bits that a write of '1' to SPWSTR clears: EE, IA, WE, PE, DE, ER, CE and TO.
abbrev pub clear_bits_str : ℕ
clear_bits_str = 0x1df

clear_bits_str-bits :
    (i : ℕ)
    → bit clear_bits_str i
      ≡ bit (flag 8) i
        || bit (flag 7) i
        || bit (flag 6) i
        || bit (flag 4) i
        || bit (flag 3) i
        || bit (flag 2) i
        || bit (flag 1) i
        || bit (flag 0) i
unfolding flag
clear_bits_str-bits i = ground (
  arith,
  bit-bit_or 0x1de 1 i,
  bit-bit_or 0x1dc 2 i,
  bit-bit_or 0x1d8 4 i,
  bit-bit_or 0x1d0 8 i,
  bit-bit_or 0x1c0 0x10 i,
  bit-bit_or 0x180 0x40 i,
  bit-bit_or 0x100 0x80 i,
)

-- A write of SPWSTR clears exactly the error and tick bits that are written as '1' and keeps every
-- other bit, the link state among them.
pub write_str_bits :
    (r : Registers) (value i : ℕ)
    → i < 32
    → bit (write_str r value).str i ≡ bit r.str i && not (bit value i && bit clear_bits_str i)
unfolding write_str
write_str_bits r value i h =
    let ee = clear_written value (flag 8) r.str in
    let ia = clear_written value (flag 7) ee in
    let we = clear_written value (flag 6) ia in
    let pe = clear_written value (flag 4) we in
    let de = clear_written value (flag 3) pe in
    let er = clear_written value (flag 2) de in
    let ce = clear_written value (flag 1) er in
    ground (
      arith,
      clear_bits_str-bits i,
      bit-clear_written value 8 r.str i h,
      bit-clear_written value 7 ee i h,
      bit-clear_written value 6 ia i h,
      bit-clear_written value 4 we i h,
      bit-clear_written value 3 pe i h,
      bit-clear_written value 2 de i h,
      bit-clear_written value 1 er i h,
      bit-clear_written value 0 ce i h,
    )

-- The bits of SPWCHN that take the value written (LE, NS, RX, RE, AI, RI, TI), those that a '1'
-- sets (RD, AT, TE), and those that a '1' clears (RA, TA, PR, PS).
abbrev pub value_bits_chn : ℕ
value_bits_chn = 0x1_141e

abbrev pub set_bits_chn : ℕ
set_bits_chn = 0xa01

abbrev pub clear_bits_chn : ℕ
clear_bits_chn = 0x1e0

-- One bit of SPWCHN after a write, before the abort of the transmission.
abbrev pub stored_chn : ℕ → ℕ → ℕ → Bool
stored_chn chn value i =
    (if bit value_bits_chn i then bit value i else bit chn i) || (bit value i && bit set_bits_chn i)

clear_bits_chn-bits :
    (i : ℕ)
    → bit clear_bits_chn i ≡ bit (flag 8) i || bit (flag 7) i || bit (flag 6) i || bit (flag 5) i
unfolding flag
clear_bits_chn-bits i =
    ground (arith, bit-bit_or 0x1c0 0x20 i, bit-bit_or 0x180 0x40 i, bit-bit_or 0x100 0x80 i)

abort_tx :
    (value reg i : ℕ)
    → i < 32
    → bit (if checkbit value (flag 9) then clearbit (clearbit reg (flag 0)) (flag 9) else reg) i
      ≡ bit reg i && not (bit value 9 && ((i == 0) || (i == 9)))
abort_tx value reg i h = ground (
  arith,
  checkbit-flag value 9,
  bit-clearbit reg (flag 0) i h,
  bit-clearbit (clearbit reg (flag 0)) (flag 9) i h,
  bit-flag 0 i,
  bit-flag 9 i,
)

pub write_chn_bits :
    (r : Registers) (value i : ℕ)
    → i < 32
    → bit (write_chn r value).chn i
      ≡ stored_chn r.chn value i
        && not (bit value 9 && ((i == 0) || (i == 9)))
        && not (bit value i && bit clear_bits_chn i)
unfolding write_chn
write_chn_bits r value i h =
    let clearset = deposit r.chn 0x1_141e value in
    let set = setbit clearset (bit_and value 0xa01) in
    let at = if checkbit value (flag 9) then clearbit (clearbit set (flag 0)) (flag 9) else set in
    let ra = clear_written value (flag 8) at in
    let ta = clear_written value (flag 7) ra in
    let pr = clear_written value (flag 6) ta in
    ground (
      arith,
      clear_bits_chn-bits i,
      bit-deposit r.chn 0x1_141e value i h,
      bit-setbit clearset (bit_and value 0xa01) i,
      bit-bit_and value 0xa01 i,
      abort_tx value set i h,
      bit-clear_written value 8 at i h,
      bit-clear_written value 7 ra i h,
      bit-clear_written value 6 ta i h,
      bit-clear_written value 5 pr i h,
    )
