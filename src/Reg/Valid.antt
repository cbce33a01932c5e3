-- ===== src/Reg/Valid.antt =====
-- The registers of a core hold no reserved bit, and every operation keeps it so.
pub mod Writes
use qemu_spacewire.Base.{
  ℕ, ◌+◌, ◌*◌, ◌^◌, ◌<◌, Bool, true, false, not, ◌&&◌, ◌||◌, ◌≡◌, refl, arith, bit_and, bit_or,
  ◌==◌, if◌then◌else◌, Bool-cases, inl, inr, ltb,
}
use qemu_spacewire.Base.Bits.{bit, flag, bit-bit_and, bit-bit_or, bit-flag, bit_lt}
use qemu_spacewire.Base.Within.{
  Within, Within-le, Within-bit_or, Within-bit_and_right, Within-bit_and_left, Within-of_bit_and,
  Within-if, Within-but, Within-not, Within-trans,
}
use qemu_spacewire.Host.{Platform, Host, Outcome, done}
use qemu_spacewire.Util.Mask.{checkbit, setbit, clearbit, deposit}
use qemu_spacewire.Util.Word.{u32}
use qemu_spacewire.Util.Mask.Keeps.{Within-setbit, Within-clearbit, Within-deposit}
use qemu_spacewire.Util.Mask.Bits.{checkbit-flag}
use qemu_spacewire.Reg.{
  Registers, RegOffset, reset_registers, store_ctr, count_tick, link_start, link_disable,
  clear_written, write_str, write_chn, store_register, write_ctr, switch_write, e_ctr, e_str, e_ndr,
  e_clk, e_key, e_tim, e_tdr, e_chn, e_rxl, e_txd, e_rxd, other,
}
use qemu_spacewire.Reg.Status.{write_chn_bits}
use qemu_spacewire.Reg.Ctr.{
  ticked, written_ctr, bit-written_ctr, bit-store_ctr, kept_ctr, write_ctr-returns,
}

-- Every field has its width, and SPWCTR lies within a mask.
pub record Holds (ctr_mask : ℕ) (r : Registers) : Type 0 where
  pub ctr_fits : Within r.ctr ctr_mask
  pub str_fits : Within r.str 0x00e0_01df
  pub ndr_fits : Within r.ndr 0xff
  pub clk_fits : Within r.clk 0xffff
  pub key_fits : Within r.key 0xff
  pub tim_fits : Within r.tim 0xff
  pub tdr_fits : Within r.tdr 0x3f_ffff
  pub chn_fits : Within r.chn 0x1_1dff
  pub rxl_fits : Within r.rxl 0x1ff_fffc
  pub txd_fits : Within r.txd 0xffff_fff0
  pub rxd_fits : Within r.rxd 0xffff_fff8

-- No reserved bit is set, nor RS and TI of SPWCTR, nor AT of SPWCHN; and every field has its width. RD
-- and TE of SPWCHN, which the header also names self-clearing, can be set: they stay until the DMA
-- engine clears them.
abbrev pub IsValid : Registers → Type 0
IsValid r = Holds 0xe003_0f2f r

reset_ctr :
    (ctr start : ℕ) → Within start 0xe003_0f2f → Within (bit_or (bit_and ctr 7) start) 0xe003_0f2f
reset_ctr ctr start w =
    Within-bit_or (bit_and ctr 7) start _
      (Within-bit_and_right ctr 7 _ (Within-of_bit_and 7 0xe003_0f2f refl)) w

-- A reset leaves the registers valid, whatever they held.
pub reset_registers-IsValid : (grspw_id : ℕ) (r : Registers) → IsValid (reset_registers grspw_id r)
unfolding reset_registers
reset_registers-IsValid grspw_id r = record {
  ctr_fits = Within-clearbit _ (flag 6) 0 _ (
      reset_ctr r.ctr _ (
        Within-if (ltb grspw_id 2) 0x1_0002 0xa001_0002 _ (Within-of_bit_and 0x1_0002 _ refl)
          (Within-of_bit_and 0xa001_0002 _ refl)));
  str_fits = Within-of_bit_and 0 _ refl;
  ndr_fits = Within-of_bit_and 254 _ refl;
  clk_fits = Within-of_bit_and 0x404 _ refl;
  key_fits = Within-of_bit_and 0 _ refl;
  tim_fits = Within-of_bit_and 0 _ refl;
  tdr_fits = Within-of_bit_and 0x2_7140 _ refl;
  chn_fits =
      Within-bit_or (bit_and r.chn 0x1c) 0 _
        (Within-bit_and_right r.chn 0x1c _ (Within-of_bit_and 0x1c _ refl))
        (Within-of_bit_and 0 _ refl);
  rxl_fits = Within-of_bit_and 0 _ refl;
  txd_fits = Within-of_bit_and 0 _ refl;
  rxd_fits = Within-of_bit_and 0 _ refl;
}

Within-clear_written :
    (value mask reg m : ℕ) → Within reg m → Within (clear_written value mask reg) m
unfolding clear_written
Within-clear_written value mask reg m w =
    Within-if (checkbit value mask) _ _ m (Within-clearbit reg mask 0 m w) w

str-Within :
    (r : Registers) (value : ℕ)
    → Within r.str 0x00e0_01df
    → Within (write_str r value).str 0x00e0_01df
unfolding write_str
str-Within r value w =
    let c = Within-clear_written value in
    c _ _ _ (c _ _ _ (c _ _ _ (c _ _ _ (c _ _ _ (c _ _ _ (c _ _ _ (c _ _ _ w)))))))

pub write_str-IsValid : (r : Registers) (value : ℕ) → IsValid r → IsValid (write_str r value)
unfolding write_str
write_str-IsValid r value v = assumption (str-Within r value v.str_fits)

bit-write_chn_at :
    (r : Registers) (value : ℕ) → bit r.chn 9 ≡ false → bit (write_chn r value).chn 9 ≡ false
unfolding bit
bit-write_chn_at r value e = ground (arith, write_chn_bits r value 9 (omega arith))

-- SPWCHN without AT: where AT is written it is cleared, else it stays as it was.
chn-Within :
    (r : Registers) (value : ℕ) → Within r.chn 0x1_1dff → Within (write_chn r value).chn 0x1_1dff
unfolding write_chn flag
chn-Within r value w =
    let c = Within-clear_written value in
    let stored =
      Within-setbit (deposit r.chn 0x1_141e value) (bit_and value 0xa01) 0 0x1_1fff
        (Within-deposit r.chn 0x1_141e value _
          (Within-trans w (Within-of_bit_and 0x1_1dff 0x1_1fff refl))
          (Within-of_bit_and 0x1_141e 0x1_1fff refl))
        (Within-bit_and_right value 0xa01 _ (Within-of_bit_and 0xa01 0x1_1fff refl)) in
    Within-but _ _ 0x1_1fff 9 refl
      (c _ _ _ (
        c _ _ _ (
          c _ _ _ (
            c _ _ _ (
              Within-if (checkbit value (flag 9)) _ _ _
                (Within-clearbit _ (flag 9) 0 _ (Within-clearbit _ (flag 0) 0 _ stored)) stored)))))
      (bit-write_chn_at r value (Within-not r.chn 0x1_1dff 9 w (unfold bit in refl)))

pub write_chn-IsValid : (r : Registers) (value : ℕ) → IsValid r → IsValid (write_chn r value)
unfolding write_chn
write_chn-IsValid r value v = assumption (chn-Within r value v.chn_fits)

if_keeps :
    (P : Registers → Type 0) (c : Bool) (a b : Registers) → P a → P b → P (if c then a else b)
if_keeps P true a b p q = p
if_keeps P false a b p q = q

module _ (m value : ℕ) where
  ticked-Holds : (r : Registers) → Holds m r → Holds m (ticked r value)
  unfolding count_tick
  ticked-Holds r v =
      if_keeps (Holds m) (checkbit value (flag 4)) _ r
        (assumption (
          Within-clearbit r.ctr (flag 4) 0 m v.ctr_fits,
          Within-deposit r.tim 0x3f (u32 (r.tim + 1)) _ v.tim_fits
              (Within-of_bit_and 0x3f 0xff refl),
        ))
        v

  -- The link state field and a bit of SPWCTR, as Link Start and Link Disable change them.
  link-Holds :
      (r : Registers) (state k : ℕ)
      → Holds m r
      → Holds m (record r { str = deposit r.str 0xe0_0000 state; ctr = clearbit r.ctr (flag k) })
  link-Holds r state k v = assumption (
    Within-clearbit r.ctr (flag k) 0 m v.ctr_fits,
    Within-deposit r.str 0xe0_0000 state _ v.str_fits
        (Within-of_bit_and 0xe0_0000 0x00e0_01df refl),
  )

  pub later_parts-Holds :
      (r : Registers) → Holds m r → Holds m (link_disable (link_start (ticked r value) value) value)
  unfolding link_disable link_start
  later_parts-Holds r v =
      let t = ticked-Holds r v in
      let s =
        if_keeps (Holds m) (checkbit value (flag 1)) _ (ticked r value)
          (link-Holds (ticked r value) (5 * 2 ^ 21) 0 t) t in
      if_keeps (Holds m) (checkbit value (flag 0)) _ (link_start (ticked r value) value)
        (link-Holds (link_start (ticked r value) value) 0 1 s) s

pub stored-Holds :
    (grspw_id : ℕ) (r : Registers) (value : ℕ)
    → IsValid r
    → bit value 6 ≡ false
    → Holds 0xe003_0f7f (store_ctr grspw_id r value)
unfolding store_ctr
stored-Holds grspw_id r value v rs =
    let w = Within-trans v.ctr_fits (Within-of_bit_and 0xe003_0f2f 0xe003_0f7f refl) in
    rw (checkbit-flag value 6) (
      rw rs (
        assumption (
          Within-bit_or (deposit r.ctr 0x3_0f2f value) (setbit r.ctr (bit_and value 0x50)) _
              (Within-deposit r.ctr 0x3_0f2f value _ w
                (Within-of_bit_and 0x3_0f2f 0xe003_0f7f refl))
              (Within-setbit r.ctr (bit_and value 0x50) 0 _ w
                (Within-bit_and_right value 0x50 _ (Within-of_bit_and 0x50 0xe003_0f7f refl))),
          v.str_fits,
        )))
