-- ===== src/System/Transmits/Tests.antt =====
-- A packet of a concrete guest.
use qemu_spacewire.Base.{◌≡◌, refl, arith, false, true, ◌==◌, [], ◌∷◌, ℕ, some, if◌then◌else◌, ◌≢◌}
use qemu_spacewire.Base.Bits.{bit, flag}
use qemu_spacewire.Host.Sample.{sample, sample_host, zeros}
use qemu_spacewire.Util.Word.{bytes_of, word_of}
use qemu_spacewire.Util.Mask.{clearbit}
use qemu_spacewire.Util.Swap.{reverse_words}
use qemu_spacewire.Mq.Frame.{frame}
use qemu_spacewire.Reg.{e_ctr, store_register}
use qemu_spacewire.Com.Descriptor.{word}
use qemu_spacewire.Com.Emit.{message}
use qemu_spacewire.Com.Sample.{device, device-IsValid, att, sample-IsSized}
use qemu_spacewire.Core.{RxThread}
use qemu_spacewire.Apb.{reg_offset, to_offset, core_id}
use qemu_spacewire.System.{System, idle, sleeping, Reach}
use qemu_spacewire.System.Reachable.{IsValidSystem}
use qemu_spacewire.System.Acknowledge.{acknowledgement}
use qemu_spacewire.System.Transmits.{stored, descriptor_of, pending_of, write_transmits}

abbrev rx : RxThread
rx = record { g_rxheader = zeros 8; g_rxdata = zeros 8; recv_att = att }

-- The descriptor at address 0 is enabled, with a header of one byte and no data.
abbrev guest : System sample
guest = record {
  cores = device ∷ (device ∷ (device ∷ (device ∷ [])));
  rx = rx;
  bus = idle;
  mutex_held = false;
  host = record (sample_host 64) { memory = λ a. if a == 2 then 0x10 else if a == 3 then 1 else 0 };
}

guest-IsValid : IsValidSystem guest
guest-IsValid =
    let d = device-IsValid 0 (omega arith) in
    record {
      cores_valid = record { count = refl; all_valid = (d, (d, (d, (d, tt)))) };
      rx_valid = omega arith;
      bus_valid = tt;
    }

-- SPWNDR of core 2.
offset_ne : reg_offset 0x208 ≢ e_ctr
unfolding reg_offset to_offset
offset_ne q = cc q

-- The guest writes its node address.
write_transmits_example :
    (waits : System sample) × (over : System sample) × (stale : ℕ) × Reach guest waits
    × (waits.bus ≡ sleeping (pending_of 0x208 (stored device 0x208 9)))
    × (sample.mq_send [] (
          message
            (stored device 0x208 9)
            (descriptor_of guest (stored device 0x208 9))
            stale
            guest.host)
        ≡ some waits.host.spwq)
    × (waits.host.memory ≡ guest.host.memory)
    × Reach (record waits { host = record waits.host { devq = acknowledgement 2 ∷ [] } }) over
    × (over.bus ≡ idle)
    × (over.mutex_held ≡ true)
    × (over.host.memory
        ≡ sample.address_space_write guest.host.memory (stored device 0x208 9).grspw_reg.txd (
            reverse_words (
              bytes_of
                (clearbit (word 0 (descriptor_of guest (stored device 0x208 9))) (flag 12)))))
unfolding bit word word_of reverse_words core_id reg_offset to_offset store_register frame bytes_of
write_transmits_example =
    write_transmits guest device 0x208 9 2 (acknowledgement 2 ∷ []) [] sample-IsSized guest-IsValid
      refl refl offset_ne (omega arith) refl refl (omega arith) (λ stale. (_, refl)) (omega arith)
      (omega arith) refl
