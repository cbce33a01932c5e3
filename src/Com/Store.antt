-- ===== src/Com/Store.antt =====
-- grlib_comgrspw_rxenable: how an accepted packet is stored.
use qemu_spacewire.Base.{
  ℕ, ◌*◌, ◌≤◌, Bool, true, false, ◌&&◌, List, ◌∷◌, some, ◌≡◌, refl, ◌∙◌, arith, length, ltb,
  if◌then◌else◌, bit_and,
}
use qemu_spacewire.Base.Bits.{bit, flag, bit-flag}
use qemu_spacewire.Host.{Platform, Host, done, ◌>>=◌, check_warning, truncated, discarded}
use qemu_spacewire.Host.Buffer.{
  prefix, slice, overwrite, prefix-some, slice-some, overwrite-some, slice-overwritten,
}
use qemu_spacewire.Util.Mask.{checkbit, setbit}
use qemu_spacewire.Util.Mask.Bits.{checkbit-flag, bit-setbit}
use qemu_spacewire.Util.Word.{bytes_of, length-bytes_of}
use qemu_spacewire.Util.Swap.{reverse_words, length-reverse_words}
use qemu_spacewire.Util.Ram.{
  IsSized, write_leon3_ram, address_space_write, read_leon3_ram, read_leon3_ram-swapped,
}
use qemu_spacewire.Reg.{Registers}
use qemu_spacewire.Com.{
  Device, RecvAtt, rxenable, accept_packet, receive_by_descriptor, store_packet, warn_discarded,
  used_descriptor, next_descriptor, received_registers, qemu_irq_pulse,
}
use qemu_spacewire.Com.Descriptor.{
  word, c_spwtrw0_wr, c_spwtrw0_ie, c_spwtrw0_en, c_nb_rx_descriptor,
}
use qemu_spacewire.Reg.Masks.{c_spwchn_ti}
use qemu_spacewire.Com.Valid.{IsValidDevice, write_word}
use qemu_spacewire.Com.Filter.{is_addressed}
use qemu_spacewire.Com.Time.{pulsed_if}

-- The number of bytes stored: the packet's, or the limit of SPWRXL.
abbrev pub max_length : Device → ℕ
max_length d = bit_and d.grspw_reg.rxl 0x1ff_fffc

abbrev pub is_truncated : Device → ℕ → Bool
is_truncated d len = ltb (max_length d) len

abbrev pub stored_length : Device → ℕ → ℕ
stored_length d len = if is_truncated d len then max_length d else len

-- The descriptor's control word after a packet.
abbrev pub ctrl_after : Device → List ℕ → ℕ → RecvAtt → ℕ
ctrl_after d descriptor len att =
    used_descriptor (word 0 descriptor) (is_truncated d len) att (stored_length d len)

-- The descriptor that SPWRXD points at, in the byte order of the host.
abbrev pub descriptor_at : {p : Platform} → Device → Host p → List ℕ
descriptor_at {p} d h = reverse_words (p.address_space_read h.memory d.grspw_reg.rxd 8)

abbrev pub delivered : Device → List ℕ → ℕ → RecvAtt → List ℕ → Device
delivered d descriptor len att xs =
    let cur =
      next_descriptor (checkbit (ctrl_after d descriptor len att) c_spwtrw0_wr) d.rxd_cur
        c_nb_rx_descriptor in
    record d { grspw_reg = received_registers d.grspw_reg att cur; rxd_map = xs; rxd_cur = cur }

abbrev pub after_delivery :
    {p : Platform} → Device → List ℕ → ℕ → RecvAtt → List ℕ → Host p → Host p
after_delivery {p} d descriptor len att front h =
    let ctrl = ctrl_after d descriptor len att in
    record h {
      memory =
          p.address_space_write (p.address_space_write h.memory (word 1 descriptor) front)
            d.grspw_reg.rxd (reverse_words (bytes_of ctrl));
      irq_pulses =
          pulsed_if
            (checkbit ctrl c_spwtrw0_ie
              && checkbit
                  (received_registers d.grspw_reg att
                    (next_descriptor (checkbit ctrl c_spwtrw0_wr) d.rxd_cur c_nb_rx_descriptor)).chn
                  c_spwchn_ti)
            d.grspw_id h.irq_pulses;
      log = if is_truncated d len then check_warning truncated ∷ h.log else h.log;
    }

module _ {p : Platform} where
  write_straight :
      (addr len : ℕ) (bytes front : List ℕ) (h : Host p)
      → prefix len bytes ≡ some front
      → write_leon3_ram addr bytes len false h
        ≡ done (tt, record h { memory = p.address_space_write h.memory addr front })
  unfolding write_leon3_ram address_space_write ◌>>=◌
  write_straight addr len bytes front h e = rw e refl

  store_packet_run :
      (d : Device) (descriptor packet front xs : List ℕ) (len : ℕ) (att : RecvAtt) (h : Host p)
      → prefix (stored_length d len) packet ≡ some front
      → overwrite d.rxd_map (8 * d.rxd_cur) (bytes_of (ctrl_after d descriptor len att)) ≡ some xs
      → store_packet d descriptor packet len att h
        ≡ done (delivered d descriptor len att xs, after_delivery d descriptor len att front h)
  unfolding store_packet qemu_irq_pulse ◌>>=◌
  store_packet_run d descriptor packet front xs len att h f e =
      let logged = record h {
        log = if is_truncated d len then check_warning truncated ∷ h.log else h.log;
      } in
      let stored = record logged {
        memory = p.address_space_write h.memory (word 1 descriptor) front;
      } in
      ground (
        arith,
        write_straight (word 1 descriptor) (stored_length d len) packet front logged f,
        e,
        write_word d.grspw_reg.rxd (ctrl_after d descriptor len att) stored,
      )

  receive_by_descriptor_run :
      (d : Device) (old ys packet front xs : List ℕ) (len : ℕ) (att : RecvAtt) (h : Host p)
      → slice (8 * d.rxd_cur) 8 d.rxd_map ≡ some old
      → read_leon3_ram d.grspw_reg.rxd old 8 true h ≡ done (descriptor_at d h, h)
      → overwrite d.rxd_map (8 * d.rxd_cur) (descriptor_at d h) ≡ some ys
      → checkbit (word 0 (descriptor_at d h)) c_spwtrw0_en ≡ true
      → prefix (stored_length d len) packet ≡ some front
      → overwrite ys (8 * d.rxd_cur) (bytes_of (ctrl_after d (descriptor_at d h) len att)) ≡ some xs
      → receive_by_descriptor d packet len att h
        ≡ done (
          delivered d (descriptor_at d h) len att xs,
          after_delivery d (descriptor_at d h) len att front h,
        )
  unfolding receive_by_descriptor ◌>>=◌
  receive_by_descriptor_run d old ys packet front xs len att h s r o en f e = ground (
    arith,
    s,
    r,
    o,
    en,
    store_packet_run (record d { rxd_map = ys }) (descriptor_at d h) packet front xs len att h f e,
  )

ns_kept :
    (r : Registers) (att : RecvAtt) (cur : ℕ)
    → checkbit (received_registers r att cur).chn (flag 12) ≡ bit r.chn 12
unfolding received_registers
ns_kept r att cur =
    ground
      (arith, checkbit-flag (setbit r.chn (flag 6)) 12, bit-setbit r.chn (flag 6) 12, bit-flag 6 12)

rxenable_run :
    {p : Platform} (d d' : Device) (node_addr : ℕ) (rest : List ℕ) (len : ℕ) (att : RecvAtt)
    (h h' : Host p)
    → is_addressed d node_addr ≡ true
    → bit d.grspw_reg.chn 11 ≡ true
    → receive_by_descriptor d (node_addr ∷ rest) len att h ≡ done (d', h')
    → checkbit d'.grspw_reg.chn (flag 12) ≡ bit d.grspw_reg.chn 12
    → rxenable d (node_addr ∷ rest) len att h
      ≡ done (
        d',
        record h' {
          log = if bit d.grspw_reg.chn 12 then h'.log else check_warning discarded ∷ h'.log;
        },
      )
unfolding rxenable accept_packet warn_discarded ◌>>=◌
rxenable_run d d' node_addr rest len att h h' addressed rd run ns = ground (
  arith,
  run,
  checkbit-flag d.grspw_reg.chn 1,
  checkbit-flag d.grspw_reg.ctr 5,
  checkbit-flag d.grspw_reg.chn 11,
  ns,
)

-- What a delivery leaves: the state of `after_delivery`, and in the log the warning of a discarded
-- packet on top where NS is '0'.
abbrev pub after_receipt : {p : Platform} → Device → List ℕ → ℕ → RecvAtt → List ℕ → Host p → Host p
after_receipt d descriptor len att front h =
    let after = after_delivery d descriptor len att front h in
    record after {
      log = if bit d.grspw_reg.chn 12 then after.log else check_warning discarded ∷ after.log;
    }

-- The whole run, for a packet that is accepted.
pub rxenable_stores :
    {p : Platform} (d : Device) (node_addr : ℕ) (rest : List ℕ) (len : ℕ) (att : RecvAtt)
    (h : Host p)
    → IsSized p
    → IsValidDevice d
    → len ≤ length (node_addr ∷ rest)
    → is_addressed d node_addr ≡ true
    → bit d.grspw_reg.chn 11 ≡ true
    → bit (word 0 (descriptor_at d h)) 25 ≡ true
    → (front : List ℕ) × (xs : List ℕ) × (prefix (stored_length d len) (node_addr ∷ rest)
        ≡ some front)
      × (rxenable d (node_addr ∷ rest) len att h
          ≡ done (
            delivered d (descriptor_at d h) len att xs,
            after_receipt d (descriptor_at d h) len att front h,
          ))
      × (slice (8 * d.rxd_cur) 4 xs ≡ some (bytes_of (ctrl_after d (descriptor_at d h) len att)))
rxenable_stores {p} d node_addr rest len att h m v b addressed rd en =
    let packet = node_addr ∷ rest in
    let guest = p.address_space_read h.memory d.grspw_reg.rxd 8 in
    let sized = m.sized h.memory d.grspw_reg.rxd 8 in
    let ctrl = ctrl_after d (descriptor_at d h) len att in
    let (old, s, l) =
      slice-some (8 * d.rxd_cur) 8 d.rxd_map (omega (arith, v.rxd_map_length, v.rxd_cur_lt)) in
    let (ys, o, k) =
      overwrite-some d.rxd_map (8 * d.rxd_cur) (descriptor_at d h)
        (omega (arith, v.rxd_map_length, v.rxd_cur_lt, length-reverse_words guest, sized)) in
    let (front, f, n) = prefix-some (stored_length d len) packet (ground (arith, b)) in
    let (xs, e, j) =
      overwrite-some ys (8 * d.rxd_cur) (bytes_of ctrl)
        (omega (arith, v.rxd_map_length, v.rxd_cur_lt, length-bytes_of ctrl, k)) in
    let r =
      read_leon3_ram-swapped d.grspw_reg.rxd 8 old guest h refl sized l (omega arith)
        (ground arith) in
    let run =
      receive_by_descriptor_run d old ys packet front xs len att h s r o (checkbit-flag _ 25 ∙ en) f
        e in
    (
      front,
      xs,
      f,
      rxenable_run d _ node_addr rest len att h _ addressed rd run (ns_kept d.grspw_reg att _),
      rw (length-bytes_of ctrl) at (slice-overwritten ys (8 * d.rxd_cur) (bytes_of ctrl) xs e),
    )
