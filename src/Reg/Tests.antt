-- ===== src/Reg/Tests.antt =====
-- The register theorems at concrete accesses.
use qemu_spacewire.Base.{true, ◌≡◌, refl, arith, [], ◌∷◌}
use qemu_spacewire.Base.Bits.{bit, flag}
use qemu_spacewire.Host.{Host, done, pure, ◌>>=◌, trace_writereg}
use qemu_spacewire.Host.Sample.{sample, sample_host}
use qemu_spacewire.Util.Word.{u8}
use qemu_spacewire.Util.Mask.{checkbit}
use qemu_spacewire.Mq.{send_spwtimecode}
use qemu_spacewire.Reg.{
  Registers, reset_registers, write_ctr, write_registers, offset_value, store_register, select,
  e_ndr, tick_in, switch_write,
}
use qemu_spacewire.Reg.Ctr.{written_ctr, write_ctr_bits}
use qemu_spacewire.Reg.Link.{link_state, write_ctr-link_state, write_ctr_time_code}
use qemu_spacewire.Reg.Valid.{IsValid, reset_registers-IsValid}
use qemu_spacewire.Reg.Valid.Writes.{write_registers-IsValid}

abbrev blank : Registers
blank = record {
  ctr = 0;
  str = 0;
  ndr = 0;
  clk = 0;
  key = 0;
  tim = 0;
  tdr = 0;
  chn = 0;
  rxl = 0;
  txd = 0;
  rxd = 0;
}

-- Running, with the Tick-Out interrupt on and the time counter at its last value.
abbrev running : Registers
running = record blank { ctr = 0x0001_0102; str = 0xa0_0100; tim = 0xbf; chn = 0x3 }

abbrev host : Host sample
host = sample_host 32

write_ctr_keeps : write_ctr 1 running 0x8 host ≡ done (written_ctr 1 running 0x8, host)
unfolding write_ctr tick_in written_ctr checkbit flag ◌>>=◌
write_ctr_keeps = refl

-- Writing only IE leaves TQ on.
write_ctr_bits_example : bit (written_ctr 1 running 0x8).ctr 8 ≡ true
unfolding bit
write_ctr_bits_example = write_ctr_bits 1 running 0x8 host 8 (omega arith) refl write_ctr_keeps

write_ctr-link_state_example : link_state (written_ctr 1 running 0x8) ≡ 0xa0_0000
unfolding bit
write_ctr-link_state_example = write_ctr-link_state 1 running 0x8 host write_ctr_keeps

write_ctr_time_code_example :
    ((written_ctr 1 running 0x10).tim ≡ 0x80)
    × (write_ctr 1 running 0x10 host
        ≡ (send_spwtimecode 1 (u8 (written_ctr 1 running 0x10).tim) >>= λ _.
              pure (written_ctr 1 running 0x10))
            host)
unfolding bit
write_ctr_time_code_example = write_ctr_time_code 1 running 0x10 host (omega arith)

abbrev addressed : Registers
addressed = store_register e_ndr (reset_registers 2 blank) 0x1_2345

write_ndr :
    write_registers 2 (reset_registers 2 blank) e_ndr 0x1_2345 host
    ≡ done (addressed, record host { log = trace_writereg 2 8 0x1_2345 0x45 ∷ [] })
unfolding write_registers switch_write store_register select offset_value ◌>>=◌
write_ndr = refl

write_registers-IsValid_example : IsValid addressed
write_registers-IsValid_example =
    write_registers-IsValid 2 (reset_registers 2 blank) 0x1_2345 e_ndr host
      (reset_registers-IsValid 2 blank) write_ndr
