-- ===== src/System/Reads.antt =====
-- What the guest can read through the bus, in every state that the process can get to.
use qemu_spacewire.Base.{
  ℕ, ◌<◌, ◌^◌, ◌≡◌, refl, arith, Bool-cases, inl, inr, if◌then◌else◌, ◌∷◌, get_elem?-some,
  All-get_elem?, false,
}
use qemu_spacewire.Base.Within.{Within, Within-le, Within-of_bit_and, IsWord}
use qemu_spacewire.Host.{Platform, Host, done, ◌>>=◌, trace_readreg}
use qemu_spacewire.Util.Ram.{IsSized}
use qemu_spacewire.Reg.{
  Registers, RegOffset, select, offset_value, read_registers, e_ctr, e_str, e_ndr, e_clk, e_key,
  e_tim, e_tdr, e_chn, e_rxl, e_txd, e_rxd, other,
}
use qemu_spacewire.Reg.Valid.{IsValid}
use qemu_spacewire.Com.Valid.{IsValidDevice}
use qemu_spacewire.Core.{RxThread}
use qemu_spacewire.Core.Valid.{IsValidRx}
use qemu_spacewire.Core.{locktxsem, unlocktxsem}
use qemu_spacewire.Apb.{blocked, returned, core_id, reg_offset, apb_read}
use qemu_spacewire.Apb.Decode.{core_id-lt}
use qemu_spacewire.System.{System, Reach, start}
use qemu_spacewire.System.Reachable.{Reach-IsValidSystem}

-- The bits of a register that can be read as '1'. There are none where there is no register.
abbrev pub defined_bits : RegOffset → ℕ
defined_bits e_ctr = 0xe003_0f2f
defined_bits e_str = 0x00e0_01df
defined_bits e_ndr = 0xff
defined_bits e_clk = 0xffff
defined_bits e_key = 0xff
defined_bits e_tim = 0xff
defined_bits e_tdr = 0x3f_ffff
defined_bits e_chn = 0x1_1dff
defined_bits e_rxl = 0x1ff_fffc
defined_bits e_txd = 0xffff_fff0
defined_bits e_rxd = 0xffff_fff8
defined_bits (other n) = 0

select-Within : (o : RegOffset) (r : Registers) → IsValid r → Within (select o r) (defined_bits o)
unfolding select
select-Within e_ctr r v = v.ctr_fits
select-Within e_str r v = v.str_fits
select-Within e_ndr r v = v.ndr_fits
select-Within e_clk r v = v.clk_fits
select-Within e_key r v = v.key_fits
select-Within e_tim r v = v.tim_fits
select-Within e_tdr r v = v.tdr_fits
select-Within e_chn r v = v.chn_fits
select-Within e_rxl r v = v.rxl_fits
select-Within e_txd r v = v.txd_fits
select-Within e_rxd r v = v.rxd_fits
select-Within (other n) r v = Within-of_bit_and 0 0 refl

defined_bits-IsWord : (o : RegOffset) → defined_bits o < 2 ^ 32
defined_bits-IsWord (other n) = omega arith
defined_bits-IsWord _ = omega arith

-- In every state that the threads and the external device can get to from the initialisation, what the
-- guest's read at any address does depends only on the mutex. Where it is owned, the read blocks and
-- changes nothing. Where it is free, the read returns a word of 32 bits in which no bit is set that
-- the addressed register does not define (0 where there is no register), gives the mutex back, and
-- changes nothing but the log. (A read of the guest's memory gives the bytes that were asked for, and
-- the receive buffer is not empty.)
pub reads_return_words :
    {p : Platform} (rx : RxThread) (h : Host p) (s : System p) (addr : ℕ)
    → IsSized p
    → IsValidRx rx
    → Reach (start rx h) s
    → (value : ℕ) × (apb_read s.mutex_held s.cores addr s.host ≡ (
        if s.mutex_held
        then done (blocked, s.host)
        else done (
          returned value false,
          record s.host {
            log = trace_readreg (core_id addr) (offset_value (reg_offset addr)) value ∷ s.host.log;
          },
        )))
      × Within value (defined_bits (reg_offset addr))
      × IsWord value
unfolding apb_read read_registers locktxsem unlocktxsem ◌>>=◌
reads_return_words rx h s addr m r reach =
    let v = (Reach-IsValidSystem rx h m r reach).cores_valid in
    let (d, e) = get_elem?-some s.cores (core_id addr) (omega (arith, v.count, core_id-lt addr)) in
    let ok = All-get_elem? IsValidDevice s.cores (core_id addr) d v.all_valid e in
    let o = reg_offset addr in
    let w = select-Within o d.grspw_reg ok.registers_valid in
    (
      select o d.grspw_reg,
      elim (Bool-cases s.mutex_held) [
        | inl t ↦ ground (arith, e, t)
        | inr f ↦ ground (arith, e, f)
      ],
      w,
      omega (arith, Within-le w, defined_bits-IsWord o),
    )
