-- ===== src/Reg/Access.antt =====
-- Reading back what was written through grlib_reggrspw_write_registers, and the reset.
use qemu_spacewire.Base.{
  ℕ, ◌<◌, not, ◌&&◌, ◌||◌, ◌≡◌, ◌≢◌, refl, ap, arith, bit_and, bit_or, Option, none, some, ◌∷◌,
  ◌==◌, if◌then◌else◌, ltb,
}
use qemu_spacewire.Base.Bits.{bit, flag, bit-bit_and, bit-bit_or, bit-flag, bit-zero}
use qemu_spacewire.Base.Within.{word_ext, Within-le}
use qemu_spacewire.Host.{Platform, Host, done, ◌>>=◌, trace_readreg, trace_writereg}
use qemu_spacewire.Util.Mask.Bits.{bit-clearbit}
use qemu_spacewire.Reg.{
  Registers, RegOffset, reset_registers, store_register, write_str, write_chn, select, offset_value,
  switch_write, write_registers, read_registers, e_ctr, e_ndr, e_clk, e_key, e_tim, e_tdr, e_rxl,
  e_txd, e_rxd,
}
use qemu_spacewire.Reg.Valid.{reset_registers-IsValid}

-- The writable bits of the registers that take the value written, as the datasheet's fields.
abbrev pub plain_mask : RegOffset → Option ℕ
plain_mask e_ndr = some 0xff
plain_mask e_clk = some 0xffff
plain_mask e_key = some 0xff
plain_mask e_tim = some 0xff
plain_mask e_tdr = some 0x3f_ffff
plain_mask e_rxl = some 0x1ff_fffc
plain_mask e_txd = some 0xffff_fff0
plain_mask e_rxd = some 0xffff_fff8
plain_mask _ = none

pub select-store_register :
    (offset : RegOffset) (r : Registers) (value : ℕ) {mask : ℕ}
    → plain_mask offset ≡ some mask
    → select offset (store_register offset r value) ≡ bit_and value mask
unfolding select store_register
select-store_register e_ctr r value e = ground arith
select-store_register _ r value e = ground arith

pub select-store_register_ne :
    (offset o : RegOffset) (r : Registers) (value : ℕ)
    → o ≢ offset
    → select o (store_register offset r value) ≡ select o r
unfolding select store_register write_str write_chn
select-store_register_ne e_ctr e_ctr r value ne = refl
select-store_register_ne _ _ r value ne = ground arith

module _ {p : Platform} (grspw_id : ℕ) (r : Registers) (value : ℕ) (h : Host p) where
  -- What a write and a read at `o` log, the read last.
  abbrev logged : RegOffset → RegOffset → ℕ → ℕ → Host p
  logged offset o result got = record h {
    log =
        trace_readreg grspw_id (offset_value o) got
        ∷ trace_writereg grspw_id (offset_value offset) value result
        ∷ h.log;
  }

  switch_write_plain :
      (offset : RegOffset)
      → offset ≢ e_ctr
      → switch_write grspw_id r offset value h ≡ done (store_register offset r value, h)
  unfolding switch_write
  switch_write_plain e_ctr ne = absurd (ne refl)
  switch_write_plain _ ne = refl

  pub write_registers_plain :
      (offset : RegOffset)
      → offset ≢ e_ctr
      → write_registers grspw_id r offset value h
        ≡ done (
          store_register offset r value,
          record h {
            log =
                trace_writereg grspw_id
                  (offset_value offset)
                  value
                  (select offset (store_register offset r value))
                ∷ h.log;
          },
        )
  unfolding write_registers ◌>>=◌
  write_registers_plain offset ne = ground (arith, switch_write_plain offset ne)

  write_then_read :
      (offset o : RegOffset)
      → offset ≢ e_ctr
      → (do r' ← write_registers grspw_id r offset value; read_registers grspw_id r' o) h
        ≡ done (
          select o (store_register offset r value),
          logged offset o
              (select offset (store_register offset r value))
              (select o (store_register offset r value)),
        )
  unfolding write_registers read_registers ◌>>=◌
  write_then_read offset o ne = ground (arith, switch_write_plain offset ne)

  pub plain_ne_ctr :
      (offset : RegOffset) {mask : ℕ} → plain_mask offset ≡ some mask → offset ≢ e_ctr
  plain_ne_ctr offset e q = cc (ap plain_mask q)

  -- Reading back a register that takes the value written (NDR, CLK, KEY, TIM, TDR, RXL, TXD or RXD)
  -- gives the value within the register's fields. Both accesses return, and log what they did.
  pub read-write_same :
      (offset : RegOffset) {mask : ℕ}
      → plain_mask offset ≡ some mask
      → (do r' ← write_registers grspw_id r offset value; read_registers grspw_id r' offset) h
        ≡ done (bit_and value mask, logged offset offset (bit_and value mask) (bit_and value mask))
  read-write_same offset e = ground (
    arith,
    select-store_register offset r value e,
    write_then_read offset offset (plain_ne_ctr offset e),
  )

  -- A write of any register but SPWCTR leaves what is read at every other offset as it was.
  pub read-write_other :
      (offset o : RegOffset)
      → offset ≢ e_ctr
      → o ≢ offset
      → (do r' ← write_registers grspw_id r offset value; read_registers grspw_id r' o) h
        ≡ done (
          select o r,
          logged offset o (select offset (store_register offset r value)) (select o r),
        )
  read-write_other offset o ne d =
      ground (arith, write_then_read offset o ne, select-store_register_ne offset o r value d)

-- What SPWCTR starts from after a reset: RMAP enable and Link Start, and the read-only RMAP bits
-- of the cores that have RMAP.
abbrev pub reset_value_ctr : ℕ → ℕ
reset_value_ctr grspw_id = if ltb grspw_id 2 then 0x1_0002 else 0xa001_0002

bit-reset_ctr :
    (grspw_id : ℕ) (r : Registers) (i : ℕ)
    → i < 32
    → bit (reset_registers grspw_id r).ctr i
      ≡ ((bit r.ctr i && bit 7 i) || bit (reset_value_ctr grspw_id) i) && not (i == 6)
unfolding reset_registers
bit-reset_ctr grspw_id r i h = ground (
  arith,
  bit-clearbit (bit_or (bit_and r.ctr 7) (reset_value_ctr grspw_id)) (flag 6) i h,
  bit-bit_or (bit_and r.ctr 7) (reset_value_ctr grspw_id) i,
  bit-bit_and r.ctr 7 i,
  bit-flag 6 i,
)

reset_ctr_twice :
    (grspw_id : ℕ) (r : Registers)
    → (reset_registers grspw_id (reset_registers grspw_id r)).ctr ≡ (reset_registers grspw_id r).ctr
reset_ctr_twice grspw_id r =
    let s = reset_registers grspw_id r in
    word_ext (reset_registers grspw_id s).ctr s.ctr
      (omega (arith, Within-le (reset_registers-IsValid grspw_id s).ctr_fits))
      (omega (arith, Within-le (reset_registers-IsValid grspw_id r).ctr_fits))
      λ i h. ground (arith, bit-reset_ctr grspw_id r i h, bit-reset_ctr grspw_id s i h)

bit-reset_chn :
    (grspw_id : ℕ) (r : Registers) (i : ℕ)
    → bit (reset_registers grspw_id r).chn i ≡ bit r.chn i && bit 0x1c i
unfolding reset_registers
bit-reset_chn grspw_id r i =
    ground (arith, bit-bit_or (bit_and r.chn 0x1c) 0 i, bit-bit_and r.chn 0x1c i, bit-zero i)

reset_chn_twice :
    (grspw_id : ℕ) (r : Registers)
    → (reset_registers grspw_id (reset_registers grspw_id r)).chn ≡ (reset_registers grspw_id r).chn
reset_chn_twice grspw_id r =
    let s = reset_registers grspw_id r in
    word_ext (reset_registers grspw_id s).chn s.chn
      (omega (arith, Within-le (reset_registers-IsValid grspw_id s).chn_fits))
      (omega (arith, Within-le (reset_registers-IsValid grspw_id r).chn_fits))
      λ i h. ground (arith, bit-reset_chn grspw_id r i, bit-reset_chn grspw_id s i)

-- What a reset keeps, whatever the registers held: of SPWCTR exactly AS, LS and LD, beside the bits
-- that it sets, and of SPWCHN exactly AI, RI and TI. A second reset changes nothing.
pub reset_registers_keeps :
    (grspw_id : ℕ) (r : Registers) (i : ℕ)
    → i < 32
    → (bit (reset_registers grspw_id r).ctr i
        ≡ ((bit r.ctr i && bit 7 i) || bit (reset_value_ctr grspw_id) i) && not (i == 6))
      × (bit (reset_registers grspw_id r).chn i ≡ bit r.chn i && bit 0x1c i)
      × (reset_registers grspw_id (reset_registers grspw_id r) ≡ reset_registers grspw_id r)
reset_registers_keeps grspw_id r i h =
    (bit-reset_ctr grspw_id r i h, bit-reset_chn grspw_id r i, twice)
  where
    twice : reset_registers grspw_id (reset_registers grspw_id r) ≡ reset_registers grspw_id r
    twice =
        unfold reset_registers in
        λ j. record {
          ctr = reset_ctr_twice grspw_id r j;
          str = 0;
          ndr = 254;
          clk = 0x404;
          key = 0;
          tim = 0;
          tdr = 0x2_7140;
          chn = reset_chn_twice grspw_id r j;
          rxl = 0;
          txd = 0;
          rxd = 0;
        }
