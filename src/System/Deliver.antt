-- ===== src/System/Deliver.antt =====
-- A packet of the external device, from its queue to the guest's memory.
use qemu_spacewire.Base.{
  ℕ, zero, suc, ◌+◌, ◌^◌, ◌≤◌, ◌<◌, ◌≡◌, refl, sym, ◌∙◌, arith, true, false, List, [], ◌∷◌, ◌++◌,
  length, length-append, some, get_elem?, set, All-get_elem?,
}
use qemu_spacewire.Base.Bits.{bit}
use qemu_spacewire.Host.{Platform, Host, done, ◌>>=◌}
use qemu_spacewire.Host.Buffer.{prefix}
use qemu_spacewire.Util.Ram.{IsSized}
use qemu_spacewire.Mq.{c_msgq_data}
use qemu_spacewire.Mq.Plain.{plain_message, receive_plain}
use qemu_spacewire.Com.{Device}
use qemu_spacewire.Com.Descriptor.{word}
use qemu_spacewire.Com.Valid.{IsValidDevice}
use qemu_spacewire.Com.Filter.{is_addressed}
use qemu_spacewire.Com.Store.{
  rxenable_stores, stored_length, descriptor_at, delivered, after_receipt,
}
use qemu_spacewire.Core.{RxThread, dispatch, with_core, rxthread_round}
use qemu_spacewire.System.{System, Step, receive}
use qemu_spacewire.System.Signal.{signal-false}
use qemu_spacewire.System.Reachable.{IsValidSystem}

-- The message of a data packet without a header: the core, C_MSGQ_DATA, the header length 0, the
-- data length and the data.
abbrev pub data_message : ℕ → List ℕ → List ℕ
data_message grspw_id packet = plain_message grspw_id c_msgq_data packet

-- It is the next message for the receive thread, whose buffers have room for it; `rest` is the queue
-- after it.
pub record Carries {p : Platform} (s : System p) (grspw_id : ℕ) (packet : List ℕ) (rest : p.Queue)
    : Type 0 where
  pub core_lt : grspw_id < 4
  pub fits : length packet < 2 ^ 32
  pub room : 7 + length packet ≤ length s.host.rxbuffer
  pub data_room : length packet ≤ length s.rx.g_rxdata
  pub arrives : p.mq_receive s.host.devq ≡ some (data_message grspw_id packet, rest)

prefix-front : (n : ℕ) (xs ys : List ℕ) → n ≤ length xs → prefix n (xs ++ ys) ≡ prefix n xs
unfolding prefix
prefix-front zero xs ys le = refl
prefix-front (suc n) [] ys le = absurd (omega arith)
prefix-front (suc n) (x ∷ xs) ys le = rw (prefix-front n xs ys (omega arith)) refl

stored_length_le : (d : Device) (len : ℕ) → stored_length d len ≤ len
stored_length_le d len = ground arith

module _ {p : Platform} (m : IsSized p) where
  -- A round of the receive thread on such a message.
  data_round :
      (s : System p) (d : Device) (grspw_id node_addr : ℕ) (content : List ℕ) (rest : p.Queue)
      → IsValidDevice d
      → Carries s grspw_id (node_addr ∷ content) rest
      → get_elem? s.cores grspw_id ≡ some d
      → is_addressed d node_addr ≡ true
      → bit d.grspw_reg.chn 11 ≡ true
      → bit (word 0 (descriptor_at d s.host)) 25 ≡ true
      → (front : List ℕ) × (xs : List ℕ) × (buffer : List ℕ) × (rx : RxThread) × (prefix
            (stored_length d (suc (length content)))
            (node_addr ∷ content)
          ≡ some front)
        × (rxthread_round s.rx s.cores s.host
            ≡ done (
              record {
                signals = false;
                rx = rx;
                cores =
                    set s.cores grspw_id (
                      delivered d (descriptor_at d s.host) (suc (length content)) s.rx.recv_att xs);
              },
              after_receipt d
                  (descriptor_at d s.host)
                  (suc (length content))
                  s.rx.recv_att
                  front
                  (record s.host { rxbuffer = buffer; devq = rest }),
            ))
  unfolding rxthread_round dispatch with_core ◌>>=◌
  data_round s d grspw_id node_addr content rest v c e addressed rd en =
      let packet = node_addr ∷ content in
      let (back_d, buffer, parse, _, _) =
        receive_plain s.host grspw_id c_msgq_data packet s.rx.g_rxheader s.rx.g_rxdata rest
          c.core_lt c.fits c.room c.data_room c.arrives in
      let after : Host p = record s.host { rxbuffer = buffer; devq = rest } in
      let (front, xs, f, run, _) =
        rxenable_stores d node_addr (content ++ back_d) (length packet) s.rx.recv_att after m v
          (omega (arith, length-append content back_d)) addressed rd en in
      let cut =
        prefix-front (stored_length d (length packet)) packet back_d
          (stored_length_le d (length packet)) in
      (
        front,
        xs,
        buffer,
        record s.rx { g_rxdata = packet ++ back_d },
        sym cut ∙ f,
        ground (arith, parse, e, run),
      )

-- A packet of the external device gets to the guest: where a data message for a core is the next one
-- of the queue, its packet addresses the core, and the core has a receive descriptor (RD is '1') whose
-- bit EN is set, the receive thread takes one step whatever the guest's thread is doing. In it the
-- bytes of the packet, up to the limit of SPWRXL, are written to the guest's memory at the address in
-- the descriptor and the used descriptor after them; the registers and the descriptors of that core
-- go on to the next one; no other core, and nothing of the guest's thread, changes.
pub packet_delivered :
    {p : Platform} (s : System p) (d : Device) (grspw_id node_addr : ℕ) (content : List ℕ)
    (rest : p.Queue)
    → IsSized p
    → IsValidSystem s
    → Carries s grspw_id (node_addr ∷ content) rest
    → get_elem? s.cores grspw_id ≡ some d
    → is_addressed d node_addr ≡ true
    → bit d.grspw_reg.chn 11 ≡ true
    → bit (word 0 (descriptor_at d s.host)) 25 ≡ true
    → (t : System p) × (front : List ℕ) × (xs : List ℕ) × (buffer : List ℕ) × Step s t
      × (prefix (stored_length d (suc (length content))) (node_addr ∷ content) ≡ some front)
      × (t.host
          ≡ after_receipt d
              (descriptor_at d s.host)
              (suc (length content))
              s.rx.recv_att
              front
              (record s.host { rxbuffer = buffer; devq = rest }))
      × (t.cores
          ≡ set s.cores grspw_id
              (delivered d (descriptor_at d s.host) (suc (length content)) s.rx.recv_att xs))
      × (t.bus ≡ s.bus)
      × (t.mutex_held ≡ s.mutex_held)
packet_delivered s d grspw_id node_addr content rest m v c e addressed rd en =
    let dv = All-get_elem? IsValidDevice s.cores grspw_id d v.cores_valid.all_valid e in
    let (front, xs, buffer, rx, f, run) =
      data_round m s d grspw_id node_addr content rest dv c e addressed rd en in
    (
      record s {
        rx = rx;
        cores =
            set s.cores grspw_id
              (delivered d (descriptor_at d s.host) (suc (length content)) s.rx.recv_att xs);
        host =
            after_receipt d (descriptor_at d s.host) (suc (length content)) s.rx.recv_att front
              (record s.host { rxbuffer = buffer; devq = rest });
      },
      front,
      xs,
      buffer,
      receive _ _ run (rw (signal-false s.bus) refl),
      f,
      refl,
      refl,
      refl,
      refl,
    )
