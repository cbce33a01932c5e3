-- ===== src/Testsuites/Tests.antt =====
-- The test device at a concrete guest.
use qemu_spacewire.Base.{◌≡◌, refl, false, true, List, [], ◌∷◌}
use qemu_spacewire.Base.Bits.{flag}
use qemu_spacewire.Host.{Host, done, ◌>>=◌, trace_writereg, trace_readreg}
use qemu_spacewire.Host.Sample.{sample}
use qemu_spacewire.Util.Mask.{checkbit, deposit}
use qemu_spacewire.Reg.{
  read_registers, write_registers, switch_write, store_register, select, offset_value,
}
use qemu_spacewire.Com.{Device}
use qemu_spacewire.Com.Sample.{registers, device, host}
use qemu_spacewire.Core.{txwakeup}
use qemu_spacewire.Apb.{
  returned, blocked, core_id, reg_offset, to_offset, apb_read, begin_write, written,
}
use qemu_spacewire.Testsuites.{test_read, test_write}
use qemu_spacewire.Testsuites.Agrees.{test_device_agrees}

-- The transmitter of the first core is off.
abbrev silent : Device
silent = record device { grspw_reg = record registers { chn = 0x802 } }

abbrev cores : List Device
cores = silent ∷ (device ∷ [])

-- The cores after 7 was written to SPWNDR.
abbrev readdressed : List Device
readdressed = record silent { grspw_reg = record silent.grspw_reg { ndr = 7 } } ∷ (device ∷ [])

abbrev logged : Host sample
logged = record host { log = trace_writereg 0 8 7 7 ∷ [] }

silent_write : test_write cores 8 7 host ≡ done ((false, readdressed), logged)
unfolding test_write core_id reg_offset to_offset write_registers switch_write store_register select
    offset_value txwakeup checkbit deposit flag ◌>>=◌
silent_write = refl

-- The guest reads it back.
abbrev read_back : Host sample
read_back = record host { log = trace_readreg 0 8 7 ∷ (trace_writereg 0 8 7 7 ∷ []) }

ndr_read : test_read readdressed 8 logged ≡ done (7, read_back)
unfolding test_read core_id reg_offset to_offset read_registers select offset_value ◌>>=◌
ndr_read = refl

test_device_agrees_example :
    (begin_write cores 8 7 host ≡ done ((written, readdressed), logged))
    × (apb_read false readdressed 8 logged ≡ done (returned 7 false, read_back))
    × (apb_read true readdressed 8 logged ≡ done (blocked, logged))
test_device_agrees_example =
    test_device_agrees cores readdressed readdressed 8 7 8 7 host logged logged read_back
      silent_write ndr_read
