-- ===== src/Com/Deliver.antt =====
-- grlib_comgrspw_rxenable: what an accepted packet leaves, apart from the code's own helpers.
use qemu_spacewire.Base.{
  ℕ, suc, ◌*◌, ◌≤◌, ◌<◌, Bool, true, not, ◌&&◌, ◌||◌, List, ◌∷◌, some, ◌≡◌, refl, ◌∙◌, ap, arith,
  length, ◌==◌, if◌then◌else◌,
}
use qemu_spacewire.Base.Bits.{bit, flag}
use qemu_spacewire.Host.{Platform, Host, done, LogEntry, check_warning, truncated, discarded}
use qemu_spacewire.Host.Buffer.{prefix, slice}
use qemu_spacewire.Util.Mask.{checkbit}
use qemu_spacewire.Util.Mask.Bits.{checkbit-flag}
use qemu_spacewire.Util.Word.{bytes_of, u32}
use qemu_spacewire.Util.Swap.{reverse_words}
use qemu_spacewire.Util.Ram.{IsSized}
use qemu_spacewire.Com.{Device, RecvAtt, rxenable, received_registers}
use qemu_spacewire.Com.Descriptor.{word}
use qemu_spacewire.Com.Valid.{IsValidDevice}
use qemu_spacewire.Com.Filter.{is_addressed}
use qemu_spacewire.Com.Time.{pulsed_if}
use qemu_spacewire.Com.Used.{
  used_bit, bit-used_descriptor, used_descriptor-kept, next_rx, received_registers-bits,
  received_registers_frame,
}
use qemu_spacewire.Com.Store.{
  rxenable_stores, stored_length, is_truncated, descriptor_at, ctrl_after, delivered,
}

module _ (d : Device) (descriptor : List ℕ) (len : ℕ) (att : RecvAtt) where
  -- WR and IE of the new control word are those of the descriptor.
  wr_kept : checkbit (ctrl_after d descriptor len att) (flag 26) ≡ bit (word 0 descriptor) 26
  wr_kept =
      checkbit-flag _ 26
      ∙ used_descriptor-kept (word 0 descriptor) (stored_length d len) 26 (is_truncated d len) att
          (omega arith) (omega arith)

  ie_kept : checkbit (ctrl_after d descriptor len att) (flag 27) ≡ bit (word 0 descriptor) 27
  ie_kept =
      checkbit-flag _ 27
      ∙ used_descriptor-kept (word 0 descriptor) (stored_length d len) 27 (is_truncated d len) att
          (omega arith) (omega arith)

ti_kept :
    (d : Device) (att : RecvAtt) (cur : ℕ)
    → checkbit (received_registers d.grspw_reg att cur).chn (flag 2) ≡ bit d.grspw_reg.chn 2
ti_kept d att cur =
    let (chn, _, _) = received_registers-bits d.grspw_reg att cur 2 (omega arith) in
    ground (arith, checkbit-flag (received_registers d.grspw_reg att cur).chn 2, chn)

-- The log of a delivery: a warning where the packet was truncated, and that of a discarded packet
-- where NS is '0'.
abbrev pub warned : Bool → Bool → List LogEntry → List LogEntry
warned cut ns log =
    let first = if cut then check_warning truncated ∷ log else log in
    if ns then first else check_warning discarded ∷ first

-- A packet that is addressed to a valid device with a receive descriptor (RD is '1') whose bit EN is
-- set is delivered (where a read of the guest's memory gives the bytes that were asked for). Its first
-- bytes, up to the limit of SPWRXL, are written to the guest's memory at the address in the
-- descriptor, and after them a new control word over the descriptor's, in the byte order of the guest:
-- it has the length that was stored, EN is cleared, TR is set where the packet was truncated, the
-- attributes set their bits, and every other bit is kept. The interrupt is pulsed if IE of the
-- descriptor and TI of SPWCHN are set. The index goes to the next descriptor, or to the first one
-- after the last one or where WR is set; the selector of SPWRXD is the new index, PR is set, and EE
-- where the attribute EP is. No other register and nothing else of the guest's memory changes. A
-- warning is logged where the packet was truncated, and that of a discarded packet where NS is '0',
-- though the packet was delivered.
pub rxenable_delivers :
    {p : Platform} (d : Device) (node_addr : ℕ) (rest : List ℕ) (len : ℕ) (att : RecvAtt)
    (h : Host p)
    → IsSized p
    → IsValidDevice d
    → len ≤ length (node_addr ∷ rest)
    → is_addressed d node_addr ≡ true
    → bit d.grspw_reg.chn 11 ≡ true
    → bit (word 0 (descriptor_at d h)) 25 ≡ true
    → (d' : Device) × (h' : Host p) × (front : List ℕ) × (ctrl : ℕ) × (rxenable d
          (node_addr ∷ rest)
          len
          att
          h
        ≡ done (d', h'))
      × (prefix (stored_length d len) (node_addr ∷ rest) ≡ some front)
      × ((i : ℕ)
          → i < 32
          → bit ctrl i
            ≡ used_bit
                (word 0 (descriptor_at d h))
                (is_truncated d len)
                att
                (stored_length d len)
                i)
      × (h' ≡ record h {
        memory =
            p.address_space_write
              (p.address_space_write h.memory (word 1 (descriptor_at d h)) front)
              d.grspw_reg.rxd
              (reverse_words (bytes_of ctrl));
        irq_pulses =
            pulsed_if
              (bit (word 0 (descriptor_at d h)) 27 && bit d.grspw_reg.chn 2)
              d.grspw_id
              h.irq_pulses;
        log = warned (is_truncated d len) (bit d.grspw_reg.chn 12) h.log;
      })
      × (d'.rxd_cur ≡ (
          if bit (word 0 (descriptor_at d h)) 26 || (d.rxd_cur == 127) then 0 else suc d.rxd_cur))
      × ((i : ℕ)
          → i < 32
          → (bit d'.grspw_reg.chn i ≡ bit d.grspw_reg.chn i || (i == 6))
            × (bit d'.grspw_reg.str i ≡ bit d.grspw_reg.str i || ((i == 8) && not (att.ep == 0)))
            × (bit d'.grspw_reg.rxd i
                ≡ (if bit 0x3f8 i then bit (u32 (d'.rxd_cur * 8)) i else bit d.grspw_reg.rxd i)))
      × (slice (8 * d.rxd_cur) 4 d'.rxd_map ≡ some (bytes_of ctrl))
      × (d' ≡ record d {
        grspw_reg = record d.grspw_reg {
          chn = d'.grspw_reg.chn;
          str = d'.grspw_reg.str;
          rxd = d'.grspw_reg.rxd;
        };
        rxd_map = d'.rxd_map;
        rxd_cur = d'.rxd_cur;
      })
rxenable_delivers {p} d node_addr rest len att h m v b addressed rd en =
    let descriptor = descriptor_at d h in
    let (front, xs, f, run, back) =
      rxenable_stores d node_addr rest len att h m v b addressed rd en in
    let d' = delivered d descriptor len att xs in
    (
      d',
      _,
      front,
      ctrl_after d descriptor len att,
      run,
      f,
      λ i lt.
          bit-used_descriptor (word 0 descriptor) (stored_length d len) i (is_truncated d len) att
            lt,
      rw (ie_kept d descriptor len att, ti_kept d att d'.rxd_cur) refl,
      next_rx _ d.rxd_cur v.rxd_cur_lt ∙ rw (wr_kept d descriptor len att) refl,
      λ i lt. received_registers-bits d.grspw_reg att d'.rxd_cur i lt,
      back,
      ap (λ r. record d { grspw_reg = r; rxd_map = xs; rxd_cur = d'.rxd_cur })
          (received_registers_frame d.grspw_reg att d'.rxd_cur),
    )
