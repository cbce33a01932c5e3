-- ===== src/Apb/Tests.antt =====
-- The bus access at a concrete guest.
use qemu_spacewire.Base.{◌+◌, ◌≤◌, ◌≡◌, refl, arith, [], ◌∷◌, true, false}
use qemu_spacewire.Base.Bits.{bit, flag}
use qemu_spacewire.Util.Mask.{checkbit, deposit}
use qemu_spacewire.Host.{done, ◌>>=◌, trace_readreg, trace_writereg}
use qemu_spacewire.Reg.{
  select, e_ndr, e_rxd, offset_value, write_registers, switch_write, store_register,
}
use qemu_spacewire.Com.{Device, begin_txenable}
use qemu_spacewire.Com.Sample.{registers, device, host}
use qemu_spacewire.Apb.{
  returned, blocked, core_id, reg_offset, to_offset, write_state, region_size, apb_read,
  begin_write, written,
}
use qemu_spacewire.Apb.Decode.{address, register_address}
use qemu_spacewire.Apb.Access.{bus_read-write_same}

-- The transmitter of the core is off.
abbrev silent : Device
silent = record device { grspw_reg = record registers { chn = 0x802 } }

register_address_example :
    (core_id (address 3 e_rxd) ≡ 3)
    × (reg_offset (address 3 e_rxd) ≡ e_rxd)
    × (address 3 e_rxd + 4 ≤ region_size)
register_address_example = register_address 3 e_rxd (omega arith) tt

ndr_write :
    begin_write (silent ∷ device ∷ []) 8 7 host
    ≡ done (
      (written, record silent { grspw_reg = record silent.grspw_reg { ndr = 7 } } ∷ device ∷ []),
      record host { log = trace_writereg 0 8 7 7 ∷ [] },
    )
unfolding begin_write core_id reg_offset to_offset write_registers switch_write store_register
    select offset_value begin_txenable write_state checkbit deposit flag ◌>>=◌
ndr_write = refl

bus_read-write_same_example :
    ((begin_write (silent ∷ []) (address 0 e_ndr) 0x1_0205 >>= λ r.
    apb_read false r.1 (address 0 e_ndr))
        host
      ≡ done (
        returned 5 false,
        record host { log = trace_readreg 0 8 5 ∷ trace_writereg 0 8 0x1_0205 5 ∷ [] },
      ))
    × ((begin_write (silent ∷ []) (address 0 e_ndr) 0x1_0205 >>= λ r.
            apb_read true r.1 (address 0 e_ndr))
          host
        ≡ done (blocked, record host { log = trace_writereg 0 8 0x1_0205 5 ∷ [] }))
unfolding bit offset_value
bus_read-write_same_example =
    bus_read-write_same (silent ∷ []) 0 e_ndr silent 0x1_0205 host (omega arith) refl refl refl
