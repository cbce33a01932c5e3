-- ===== src/Com/Peer.antt =====
-- A packet of the guest, from its memory through the queue to the external device.
use qemu_spacewire.Base.{
  ℕ, ◌+◌, ◌^◌, ◌≤◌, ◌<◌, ◌≡◌, refl, sym, ◌∙◌, arith, true, List, ◌++◌, length, some,
}
use qemu_spacewire.Base.Bits.{bit}
use qemu_spacewire.Host.{Platform, Host, done, ◌>>=◌}
use qemu_spacewire.Util.Ram.{IsSized}
use qemu_spacewire.Mq.{spwq, c_msgq_data, c_maxq_size, receive_spwpacket}
use qemu_spacewire.Mq.Frame.{deliver}
use qemu_spacewire.Mq.Receive.{mq_receive_spwq}
use qemu_spacewire.Mq.RoundTrip.{IsEmpty, HasOwnLength, packet, parse_frame, length-frame}
use qemu_spacewire.Com.{Device, waiting, begin_txenable}
use qemu_spacewire.Com.Descriptor.{word}
use qemu_spacewire.Com.Valid.{IsValidDevice}
use qemu_spacewire.Com.Transmit.{tx_descriptor_at}
use qemu_spacewire.Com.Emit.{
  header_length, data_length, guest_header, guest_data, message, emitted, begin_txenable_hands_over,
}

-- The core is ready to transmit the descriptor that SPWTXD points at, and the queue to the external
-- device is empty and takes the packet.
pub record IsReady {p : Platform} (d : Device) (h : Host p) : Type 0 where
  pub device_valid : IsValidDevice d
  pub core_lt : d.grspw_id < 4
  pub cur_lt : d.txd_cur < 63
  pub transmits : bit d.grspw_reg.chn 0 ≡ true
  pub enabled : bit (word 0 (tx_descriptor_at d h)) 12 ≡ true
  pub fits :
      7 + header_length (tx_descriptor_at d h) + data_length (tx_descriptor_at d h) ≤ c_maxq_size
  pub room : c_maxq_size ≤ length h.txbuffer
  pub own : HasOwnLength (guest_header (tx_descriptor_at d h) h)

-- The external device takes a frame from the queue.
frame_received :
    {p : Platform} (d : Device) (descriptor : List ℕ) (stale : ℕ) (h g : Host p) (rest : p.Queue)
    (old_h back_h old_d back_d : List ℕ)
    → p.mq_receive g.spwq ≡ some (message d descriptor stale h, rest)
    → length (message d descriptor stale h) ≤ length g.rxbuffer
    → HasOwnLength (guest_header descriptor h)
    → length (guest_header descriptor h) ≡ length old_h
    → length (guest_data descriptor h) ≡ length old_d
    → length (guest_data descriptor h) < 2 ^ 32
    → d.grspw_id < 4
    → (g' : Host p) × (receive_spwpacket (old_h ++ back_h) (old_d ++ back_d) g
        ≡ done (
          packet d.grspw_id c_msgq_data
              (guest_header descriptor h)
              (guest_data descriptor h)
              back_h
              back_d,
          g',
        ))
      × (g'.spwq ≡ rest)
unfolding receive_spwpacket
frame_received d descriptor stale h g rest old_h back_h old_d back_d a room own lh ld w lt =
    let (back, got) = mq_receive_spwq g (message d descriptor stale h) rest a room in
    (
      record g { rxbuffer = message d descriptor stale h ++ back; spwq = rest },
      parse_frame d.grspw_id c_msgq_data (guest_data descriptor h) old_h back_h old_d back_d spwq g
          _ (guest_header descriptor h) stale back got refl own lh ld w lt,
      refl,
    )

-- A packet of the guest gets to the external device: where a core is ready to transmit (TE, an
-- enabled descriptor below number 63, a packet within C_MAXQ_SIZE and the buffers, and a header that
-- is empty or begins with its own length), grlib_comgrspw_txenable gets to its wait with the guest's
-- memory unchanged; and the process of the external device, whatever its own state is, takes from the
-- queue with grlib_mqgrspw_receive_spwpacket the core's number and exactly the header and the data of
-- the guest's memory, with their lengths, and leaves the queue as it was before.
pub packet_reaches_peer :
    {p : Platform} (d : Device) (h g : Host p) (old_h back_h old_d back_d : List ℕ)
    → IsSized p
    → (empty : IsEmpty p h.spwq) → IsReady d h
    → c_maxq_size ≤ length g.rxbuffer
    → length old_h ≡ header_length (tx_descriptor_at d h)
    → length old_d ≡ data_length (tx_descriptor_at d h)
    → (h' : Host p) × (g' : Host p) × (xs : List ℕ) × (begin_txenable d h
        ≡ done ((waiting d.grspw_reg.txd d.txd_cur, emitted d (tx_descriptor_at d h) xs), h'))
      × (h'.memory ≡ h.memory)
      × (receive_spwpacket (old_h ++ back_h) (old_d ++ back_d) (record g { spwq = h'.spwq })
          ≡ done (
            packet d.grspw_id c_msgq_data
                (guest_header (tx_descriptor_at d h) h)
                (guest_data (tx_descriptor_at d h) h)
                back_h
                back_d,
            g',
          ))
      × (g'.spwq ≡ h.spwq)
unfolding deliver ◌>>=◌
packet_reaches_peer {p} d h g old_h back_h old_d back_d m empty r room lh ld =
    let descriptor = tx_descriptor_at d h in
    let hn = m.sized h.memory (word 1 descriptor) (header_length descriptor) in
    let dn = m.sized h.memory (word 3 descriptor) (data_length descriptor) in
    let (xs, stale, rest, run, _) =
      begin_txenable_hands_over m d h r.device_valid r.cur_lt r.transmits r.enabled
        (omega (arith, r.fits, r.room)) in
    let sent = message d descriptor stale h in
    let n : length sent ≤ c_maxq_size = omega (
      arith,
      hn,
      dn,
      r.fits,
      length-frame d.grspw_id c_msgq_data stale (guest_header descriptor h)
          (guest_data descriptor h),
    ) in
    let h' : Host p = record h { txbuffer = sent ++ rest; spwq = empty.after sent } in
    let (g', got, left) =
      frame_received d descriptor stale h (record g { spwq = empty.after sent }) h.spwq old_h back_h
        old_d back_d (empty.receives sent n) (omega (arith, n, room)) r.own (hn ∙ sym lh)
        (dn ∙ sym ld) (omega (arith, dn, r.fits)) r.core_lt in
    (h', g', xs, run ∙ ground (arith, empty.sends sent n), refl, got, left)
