-- ===== src/Com/Emit.antt =====
-- grlib_comgrspw_txenable: what goes from the guest's memory to the external device.
use qemu_spacewire.Base.{
  ℕ, ◌+◌, ◌*◌, ◌^◌, ◌≤◌, ◌<◌, ◌≡◌, refl, sym, ◌∙◌, arith, bit_and, true, false, List, ◌++◌, length,
  none, some, ap, suc, if◌then◌else◌, ◌||◌, ◌==◌,
}
use qemu_spacewire.Base.Bits.{bit, flag}
use qemu_spacewire.Base.Within.{Within-le, Within-bit_and_right, Within-refl}
use qemu_spacewire.Host.{Platform, Host, Outcome, done, fatal, pure, ◌>>=◌}
use qemu_spacewire.Host.Buffer.{slice, overwrite, slice-some, overwrite-some}
use qemu_spacewire.Util.Mask.{checkbit}
use qemu_spacewire.Util.Mask.Bits.{checkbit-flag}
use qemu_spacewire.Util.Word.{u32}
use qemu_spacewire.Util.Ram.{
  IsSized, malloc, length-malloc, read_leon3_ram, read_leon3_ram-swapped, read_leon3_ram-straight,
}
use qemu_spacewire.Util.Swap.{length-reverse_words}
use qemu_spacewire.Mq.{spwq, c_msgq_data, c_maxq_size, send_spwpacket, send_packet}
use qemu_spacewire.Mq.Frame.{frame, deliver}
use qemu_spacewire.Mq.Send.{send_packet-frame}
use qemu_spacewire.Mq.RoundTrip.{length-frame}
use qemu_spacewire.Com.{
  Device, TxState, waiting, next_descriptor, sent_registers, begin_txenable, send_by_descriptor,
}
use qemu_spacewire.Com.Descriptor.{
  word, c_spwtdw0_wr, c_spwtdw0_header_length, c_spwtdw2_data_length, c_nb_tx_descriptor,
}
use qemu_spacewire.Com.Used.{next_tx, sent_registers-bits, sent_registers_frame}
use qemu_spacewire.Com.Valid.{IsValidDevice}
use qemu_spacewire.Com.Transmit.{tx_descriptor_at}

-- The lengths in the descriptor, and the bytes that it points at.
abbrev pub header_length : List ℕ → ℕ
header_length descriptor = bit_and (word 0 descriptor) c_spwtdw0_header_length

abbrev pub data_length : List ℕ → ℕ
data_length descriptor = bit_and (word 2 descriptor) c_spwtdw2_data_length

abbrev pub guest_header : {p : Platform} → List ℕ → Host p → List ℕ
guest_header {p} descriptor h =
    p.address_space_read h.memory (word 1 descriptor) (header_length descriptor)

abbrev pub guest_data : {p : Platform} → List ℕ → Host p → List ℕ
guest_data {p} descriptor h =
    p.address_space_read h.memory (word 3 descriptor) (data_length descriptor)

-- The message for the external device.
abbrev pub message : {p : Platform} → Device → List ℕ → ℕ → Host p → List ℕ
message d descriptor stale h =
    frame d.grspw_id c_msgq_data (guest_header descriptor h) stale (guest_data descriptor h)

-- The device when the message is sent: the next descriptor is selected.
abbrev pub emitted : Device → List ℕ → List ℕ → Device
emitted d descriptor xs =
    let cur =
      next_descriptor (checkbit (word 0 descriptor) c_spwtdw0_wr) d.txd_cur c_nb_tx_descriptor in
    record d { grspw_reg = sent_registers d.grspw_reg cur; txd_map = xs; txd_cur = cur }

-- What is done with the message: it stands at the start of the buffer, it goes to the queue, and the
-- code gets to its wait.
abbrev pub hand_over :
    {p : Platform}
    → Device
    → Host p
    → List ℕ
    → List ℕ
    → ℕ
    → List ℕ
    → Outcome ((TxState × Device) × Host p)
hand_over d h descriptor xs stale rest =
    (deliver spwq (message d descriptor stale h) >>= λ _.
    pure (waiting d.grspw_reg.txd d.txd_cur, emitted d descriptor xs))
      (record h { txbuffer = message d descriptor stale h ++ rest })

data_length-lt : (descriptor : List ℕ) → data_length descriptor < 2 ^ 24
data_length-lt descriptor = omega (
  arith,
  Within-le (Within-bit_and_right (word 2 descriptor) 0xff_ffff 0xff_ffff (Within-refl _)),
)

header_length-lt : (descriptor : List ℕ) → header_length descriptor < 2 ^ 8
header_length-lt descriptor =
    omega (arith, Within-le (Within-bit_and_right (word 0 descriptor) 0xff 0xff (Within-refl _)))

module _ {p : Platform} (m : IsSized p) (d : Device) (h : Host p) where
  -- One read of a buffer from the guest's memory.
  read_buffer :
      (addr len : ℕ)
      → len < 0x8000_0000
      → read_leon3_ram addr (malloc len) len false h
        ≡ done (p.address_space_read h.memory addr len, h)
  read_buffer addr len b =
      read_leon3_ram-straight addr len (malloc len) _ h refl (m.sized h.memory addr len)
        (length-malloc len) b

  send_by_descriptor_lem :
      (descriptor xs : List ℕ)
      → 7 + header_length descriptor + data_length descriptor ≤ length h.txbuffer
      → (stale : ℕ) × (rest : List ℕ) × (send_by_descriptor (record d { txd_map = xs }) descriptor h
          ≡ hand_over d h descriptor xs stale rest)
  unfolding send_by_descriptor send_spwpacket ◌>>=◌
  send_by_descriptor_lem descriptor xs room =
      let hn = m.sized h.memory (word 1 descriptor) (header_length descriptor) in
      let dn = m.sized h.memory (word 3 descriptor) (data_length descriptor) in
      let hl = header_length-lt descriptor in
      let dl = data_length-lt descriptor in
      let (stale, rest, sent) =
        send_packet-frame spwq h d.grspw_id c_msgq_data (guest_header descriptor h)
          (guest_data descriptor h) (omega (arith, hn, dn, room)) (omega (arith, hn, dn, hl, dl)) in
      let payload = read_buffer (word 3 descriptor) (data_length descriptor) (omega (arith, dl)) in
      let header = read_buffer (word 1 descriptor) (header_length descriptor) (omega (arith, hl)) in
      let sent' : send_packet spwq d.grspw_id c_msgq_data (guest_header descriptor h)
            (header_length descriptor) (guest_data descriptor h) (data_length descriptor) h
          ≡ deliver spwq (message d descriptor stale h)
              (record h { txbuffer = message d descriptor stale h ++ rest }) =
        rw (sym hn, sym dn) sent in
      (stale, rest, ground (arith, payload, header, sent'))

  begin_run :
      (old xs : List ℕ)
      → bit d.grspw_reg.chn 0 ≡ true
      → slice (8 * d.txd_cur) 16 d.txd_map ≡ some old
      → read_leon3_ram d.grspw_reg.txd old 16 true h ≡ done (tx_descriptor_at d h, h)
      → overwrite d.txd_map (8 * d.txd_cur) (tx_descriptor_at d h) ≡ some xs
      → checkbit (word 0 (tx_descriptor_at d h)) (flag 12) ≡ true
      → begin_txenable d h ≡ send_by_descriptor (record d { txd_map = xs }) (tx_descriptor_at d h) h
  unfolding begin_txenable ◌>>=◌
  begin_run old xs te s r o en = ground (arith, te, s, r, o, en, checkbit-flag d.grspw_reg.chn 0)

  -- An enabled descriptor below number 63 is stored in the array, and its packet is sent.
  pub begin_sends :
      IsValidDevice d
      → d.txd_cur < 63
      → bit d.grspw_reg.chn 0 ≡ true
      → bit (word 0 (tx_descriptor_at d h)) 12 ≡ true
      → (xs : List ℕ) × (begin_txenable d h
          ≡ send_by_descriptor (record d { txd_map = xs }) (tx_descriptor_at d h) h)
        × (overwrite d.txd_map (8 * d.txd_cur) (tx_descriptor_at d h) ≡ some xs)
        × (length xs ≡ 512)
  begin_sends v lt te en =
      let guest = p.address_space_read h.memory d.grspw_reg.txd 16 in
      let sized = m.sized h.memory d.grspw_reg.txd 16 in
      let (old, s, l) =
        slice-some (8 * d.txd_cur) 16 d.txd_map (omega (arith, v.txd_map_length, lt)) in
      let (xs, o, k) =
        overwrite-some d.txd_map (8 * d.txd_cur) (tx_descriptor_at d h)
          (omega (arith, v.txd_map_length, lt, length-reverse_words guest, sized)) in
      let r =
        read_leon3_ram-swapped d.grspw_reg.txd 16 old guest h refl sized l (omega arith)
          (ground arith) in
      (xs, begin_run old xs te s r o (checkbit-flag _ 12 ∙ en), o, k ∙ v.txd_map_length)

  -- What is handed over, in terms of the code's helpers.
  pub begin_txenable_hands_over :
      IsValidDevice d
      → d.txd_cur < 63
      → bit d.grspw_reg.chn 0 ≡ true
      → bit (word 0 (tx_descriptor_at d h)) 12 ≡ true
      → 7 + header_length (tx_descriptor_at d h) + data_length (tx_descriptor_at d h)
        ≤ length h.txbuffer
      → (xs : List ℕ) × (stale : ℕ) × (rest : List ℕ) × (begin_txenable d h
          ≡ hand_over d h (tx_descriptor_at d h) xs stale rest)
        × (overwrite d.txd_map (8 * d.txd_cur) (tx_descriptor_at d h) ≡ some xs)
  begin_txenable_hands_over v lt te en room =
      let (xs, begun, o, _) = begin_sends v lt te en in
      let (stale, rest, run) = send_by_descriptor_lem (tx_descriptor_at d h) xs room in
      (xs, stale, rest, begun ∙ run, o)

  -- The transmission of a packet: on a valid device whose transmitter is enabled (TE), at a descriptor
  -- below number 63 whose bit EN is '1', where a read of the guest's memory gives the bytes that were
  -- asked for and the buffer has room for the packet, grlib_comgrspw_txenable hands one message to the
  -- queue of the external device: the core's number, the header at the descriptor's header address and
  -- the data at its data address, with the lengths the descriptor gives. If the queue refuses the
  -- message the process ends. Otherwise the code waits, with the descriptor's address and index. Then
  -- the index is that of the next descriptor, or of the first one where WR of the descriptor is set;
  -- the selector of SPWTXD is the new index, PS is set, and no other register changes.
  pub begin_txenable_emits :
      IsValidDevice d
      → d.txd_cur < 63
      → bit d.grspw_reg.chn 0 ≡ true
      → bit (word 0 (tx_descriptor_at d h)) 12 ≡ true
      → 7 + header_length (tx_descriptor_at d h) + data_length (tx_descriptor_at d h)
        ≤ length h.txbuffer
      → (d' : Device) × (stale : ℕ) × (rest : List ℕ) × (begin_txenable d h
          ≡ (deliver spwq (message d (tx_descriptor_at d h) stale h) >>= λ _.
                pure (waiting d.grspw_reg.txd d.txd_cur, d'))
              (record h { txbuffer = message d (tx_descriptor_at d h) stale h ++ rest }))
        × (d'.txd_cur ≡ (if bit (word 0 (tx_descriptor_at d h)) 13 then 0 else suc d.txd_cur))
        × ((i : ℕ)
            → i < 32
            → (bit d'.grspw_reg.chn i ≡ bit d.grspw_reg.chn i || (i == 5))
              × (bit d'.grspw_reg.txd i
                  ≡ (if bit 0x3f0 i then bit (u32 (d'.txd_cur * 16)) i else bit d.grspw_reg.txd i)))
        × (overwrite d.txd_map (8 * d.txd_cur) (tx_descriptor_at d h) ≡ some d'.txd_map)
        × (d' ≡ record d {
          grspw_reg = record d.grspw_reg { chn = d'.grspw_reg.chn; txd = d'.grspw_reg.txd };
          txd_map = d'.txd_map;
          txd_cur = d'.txd_cur;
        })
  begin_txenable_emits v lt te en room =
      let descriptor = tx_descriptor_at d h in
      let (xs, stale, rest, run, o) = begin_txenable_hands_over v lt te en room in
      let d' = emitted d descriptor xs in
      let wr = checkbit-flag (word 0 descriptor) 13 in
      (
        d',
        stale,
        rest,
        run,
        next_tx _ d.txd_cur (omega arith) ∙ ground (arith, wr),
        λ i small. sent_registers-bits d.grspw_reg d'.txd_cur i small,
        o,
        ap (λ r. record d { grspw_reg = r; txd_map = xs; txd_cur = d'.txd_cur })
            (sent_registers_frame d.grspw_reg d'.txd_cur),
      )

  -- A packet that is too long for the queue: on a valid device whose transmitter is enabled (TE), at a
  -- descriptor below number 63 whose bit EN is '1', where a read of the guest's memory gives the bytes
  -- that were asked for and the buffer has room for the packet, and where mq_send refuses every message
  -- that is longer than the C_MAXQ_SIZE of its queue: if header and data have more than C_MAXQ_SIZE - 7
  -- bytes together, the process ends, although the lengths of the descriptor allow them.
  pub long_packet_is_fatal :
      IsValidDevice d
      → d.txd_cur < 63
      → bit d.grspw_reg.chn 0 ≡ true
      → bit (word 0 (tx_descriptor_at d h)) 12 ≡ true
      → 7 + header_length (tx_descriptor_at d h) + data_length (tx_descriptor_at d h)
        ≤ length h.txbuffer
      → ((bytes : List ℕ) → c_maxq_size < length bytes → p.mq_send h.spwq bytes ≡ none)
      → c_maxq_size < 7 + header_length (tx_descriptor_at d h) + data_length (tx_descriptor_at d h)
      → begin_txenable d h ≡ fatal
  unfolding ◌>>=◌ deliver
  long_packet_is_fatal v lt te en room refuses long =
      let descriptor = tx_descriptor_at d h in
      let hn = m.sized h.memory (word 1 descriptor) (header_length descriptor) in
      let dn = m.sized h.memory (word 3 descriptor) (data_length descriptor) in
      let (xs, stale, rest, run, _) = begin_txenable_hands_over v lt te en room in
      let no = refuses (message d descriptor stale h) (
        omega (
          arith,
          hn,
          dn,
          long,
          length-frame d.grspw_id c_msgq_data stale (guest_header descriptor h)
              (guest_data descriptor h),
        )) in
      run ∙ ground (arith, no)
