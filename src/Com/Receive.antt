-- ===== src/Com/Receive.antt =====
-- grlib_comgrspw_rxenable: it always returns, and leaves a valid device.
use qemu_spacewire.Base.{
  ℕ, ◌+◌, ◌*◌, ◌≤◌, ◌<◌, Bool, ◌||◌, List, [], ◌∷◌, some, ◌≡◌, refl, ◌∙◌, arith, length, ◌==◌,
  get_elem?,
}
use qemu_spacewire.Base.Bits.{flag}
use qemu_spacewire.Host.{Platform, Host, done}
use qemu_spacewire.Host.Always.{
  Always, Anything, Always-pure, Always-bind, Always-if, Always-or_fault, Always-append_log,
}
use qemu_spacewire.Util.Word.{bytes_of, length-bytes_of}
use qemu_spacewire.Util.Mask.{checkbit, clearbit}
use qemu_spacewire.Util.Mask.Keeps.{Within-clearbit}
use qemu_spacewire.Util.Ram.{IsSized}
use qemu_spacewire.Reg.{Registers}
use qemu_spacewire.Com.{
  Device, RecvAtt, rxenable, accept_packet, receive_by_descriptor, store_packet, refuse_packet,
  warn_discarded, next_descriptor, received_registers,
}
use qemu_spacewire.Com.Valid.{
  IsValidDevice, next_descriptor_lt, received_registers-IsValid, Always-when, Always-qemu_irq_pulse,
  Always-write_word, Always-write_straight, Always-read_descriptor, Always-slice, Always-overwrite,
}

-- The element of the current descriptor lies within its array.
rxd_room : (d : Device) → IsValidDevice d → 8 * d.rxd_cur + 8 ≤ length d.rxd_map
rxd_room d v = omega (arith, v.rxd_map_length, v.rxd_cur_lt)

rxd_word_room :
    (d : Device) (w : ℕ) → IsValidDevice d → 8 * d.rxd_cur + length (bytes_of w) ≤ length d.rxd_map
rxd_word_room d w v = omega (arith, v.rxd_map_length, v.rxd_cur_lt, length-bytes_of w)

with_map :
    (d : Device) (xs : List ℕ)
    → IsValidDevice d
    → length xs ≡ length d.rxd_map
    → IsValidDevice (record d { rxd_map = xs })
with_map d xs v l = record {
  registers_valid = v.registers_valid;
  rxd_map_length = l ∙ v.rxd_map_length;
  txd_map_length = v.txd_map_length;
  rxd_cur_lt = v.rxd_cur_lt;
  txd_cur_lt = v.txd_cur_lt;
}

stored-IsValid :
    (d : Device) (xs : List ℕ) (att : RecvAtt) (wrap : Bool)
    → IsValidDevice d
    → length xs ≡ length d.rxd_map
    → IsValidDevice (record d {
      grspw_reg = received_registers d.grspw_reg att (next_descriptor wrap d.rxd_cur 128);
      rxd_map = xs;
      rxd_cur = next_descriptor wrap d.rxd_cur 128;
    })
stored-IsValid d xs att wrap v l = record {
  registers_valid = received_registers-IsValid d.grspw_reg att _ v.registers_valid;
  rxd_map_length = l ∙ v.rxd_map_length;
  txd_map_length = v.txd_map_length;
  rxd_cur_lt = next_descriptor_lt wrap d.rxd_cur 128 (omega arith);
  txd_cur_lt = v.txd_cur_lt;
}

refused-IsValid :
    (d : Device)
    → IsValidDevice d
    → IsValidDevice
        (record d { grspw_reg = record d.grspw_reg { chn = clearbit d.grspw_reg.chn (flag 11) } })
refused-IsValid d v = record {
  registers_valid =
      assumption (
        v.registers_valid,
        Within-clearbit d.grspw_reg.chn (flag 11) 0 _ v.registers_valid.chn_fits,
      );
  rxd_map_length = v.rxd_map_length;
  txd_map_length = v.txd_map_length;
  rxd_cur_lt = v.rxd_cur_lt;
  txd_cur_lt = v.txd_cur_lt;
}

head : (xs : List ℕ) → 0 < length xs → (x : ℕ) × (get_elem? xs 0 ≡ some x) × Anything x
head [] h = absurd (omega arith)
head (x ∷ xs) h = (x, refl, tt)

module _ {p : Platform} where
  Always-warn_discarded : (r : Registers) → Always Anything (warn_discarded {p = p} r)
  unfolding warn_discarded
  Always-warn_discarded r = Always-when _ (Always-append_log _)

  refuse_packet-IsValid :
      (d : Device) → IsValidDevice d → Always IsValidDevice (refuse_packet {p = p} d)
  unfolding refuse_packet
  refuse_packet-IsValid d v =
      Always-bind (Always-append_log _)
        λ _ _. Always-bind (Always-warn_discarded _) λ _ _. Always-pure _ (refused-IsValid d v)

  store_packet-IsValid :
      (d : Device) (descriptor packet : List ℕ) (len : ℕ) (att : RecvAtt)
      → IsValidDevice d
      → len ≤ length packet
      → Always IsValidDevice (store_packet {p = p} d descriptor packet len att)
  unfolding store_packet
  store_packet-IsValid d descriptor packet len att v b =
      Always-bind (Always-when _ (Always-append_log _)) λ _ _.
        Always-bind (Always-write_straight _ packet _ (ground arith)) λ _ _.
          Always-bind (Always-overwrite d.rxd_map _ (bytes_of _) (rxd_word_room d _ v)) λ rxd_map l.
            Always-bind (Always-write_word _ _) λ _ _.
              Always-bind (Always-when _ (Always-qemu_irq_pulse _))
                λ _ _. Always-pure _ (stored-IsValid d rxd_map att _ v l)

  module _ (m : IsSized p) where
    receive_by_descriptor-IsValid :
        (d : Device) (packet : List ℕ) (len : ℕ) (att : RecvAtt)
        → IsValidDevice d
        → len ≤ length packet
        → Always IsValidDevice (receive_by_descriptor {p = p} d packet len att)
    unfolding receive_by_descriptor
    receive_by_descriptor-IsValid d packet len att v b =
        Always-bind (Always-slice _ _ _ (rxd_room d v)) λ old l.
          Always-bind (Always-read_descriptor _ old 8 m l (omega arith) (ground arith)) λ bytes k.
            Always-bind (Always-overwrite d.rxd_map _ bytes (omega (arith, rxd_room d v, k)))
              λ xs e.
                let w = with_map d xs v e in
                Always-if _ (λ _. store_packet-IsValid _ bytes packet len att w b)
                  (λ _. refuse_packet-IsValid _ w)

    accept_packet-IsValid :
        (d : Device) (packet : List ℕ) (len : ℕ) (att : RecvAtt)
        → IsValidDevice d
        → len ≤ length packet
        → Always IsValidDevice (accept_packet {p = p} d packet len att)
    unfolding accept_packet
    accept_packet-IsValid d packet len att v b =
        Always-bind {Q = IsValidDevice}
          (Always-if _ (λ _. receive_by_descriptor-IsValid d packet len att v b)
            (λ _. Always-pure d v))
          λ taken w. Always-bind (Always-warn_discarded _) λ _ _. Always-pure taken w

-- A packet that the external device sends is always taken or dropped: on a valid device, with a
-- receive buffer that holds at least one byte and the `len` bytes of the packet, and where a read of
-- the guest's memory gives the bytes that were asked for, grlib_comgrspw_rxenable returns, whatever
-- the descriptor, the attributes and the registers, and leaves a valid device.
pub rxenable-IsValid :
    {p : Platform} (d : Device) (packet : List ℕ) (len : ℕ) (att : RecvAtt) (h : Host p)
    → IsSized p
    → IsValidDevice d
    → len ≤ length packet
    → 0 < length packet
    → (d' : Device) × (h' : Host p) × (rxenable d packet len att h ≡ done (d', h'))
      × IsValidDevice d'
unfolding rxenable
rxenable-IsValid {p} d packet len att h m v b z =
    let total : Always IsValidDevice (rxenable {p = p} d packet len att) =
      Always-if (checkbit d.grspw_reg.chn (flag 1))
        (λ _. Always-bind (Always-or_fault {P = Anything} (head packet z)) λ node_addr _.
          Always-if (checkbit d.grspw_reg.ctr (flag 5) || (d.grspw_reg.ndr == node_addr))
            (λ _. accept_packet-IsValid m d packet len att v b) (λ _. Always-pure d v))
        (λ _. Always-pure d v) in
    total.returns h
