-- ===== src/Com/Identity.antt =====
-- The operations of a device leave its number, by which it sends packets and raises interrupts.
use qemu_spacewire.Base.{ℕ, List, ◌≡◌, refl, ltb, ◌==◌, ◌||◌}
use qemu_spacewire.Host.{Platform}
use qemu_spacewire.Host.Ensures.{Ensures, Ensures-pure, Ensures-bind, Ensures-if, Ensures-Anything}
use qemu_spacewire.Util.Mask.{checkbit}
use qemu_spacewire.Reg.Masks.{c_spwchn_re, c_spwchn_rd, c_spwchn_te, c_spwctr_opm}
use qemu_spacewire.Com.Descriptor.{word, c_spwtrw0_en, c_spwtdw0_en}
use qemu_spacewire.Com.{
  Device, RecvAtt, TxState, rxtimecode, store_packet, refuse_packet, receive_by_descriptor,
  accept_packet, rxenable, send_by_descriptor, begin_txenable, finish_txenable,
}

-- The number is `i`.
abbrev pub Is : ℕ → Device → Type 0
Is i d = d.grspw_id ≡ i

module _ {p : Platform} where
  pub rxtimecode-Is :
      (d : Device) (timecode : ℕ) → Ensures (Is d.grspw_id) (rxtimecode {p = p} d timecode)
  unfolding rxtimecode
  rxtimecode-Is d timecode =
      Ensures-if (ltb d.grspw_reg.tim timecode)
        (λ _. Ensures-bind (Ensures-Anything _) λ _ _. Ensures-pure _ refl)
        (λ _. Ensures-pure _ refl)

  store_packet-Is :
      (d : Device) (descriptor packet : List ℕ) (len : ℕ) (att : RecvAtt)
      → Ensures (Is d.grspw_id) (store_packet {p = p} d descriptor packet len att)
  unfolding store_packet
  store_packet-Is d descriptor packet len att = Ensures-bind (Ensures-Anything _) λ _ _.
      Ensures-bind (Ensures-Anything _) λ _ _. Ensures-bind (Ensures-Anything _) λ _ _.
        Ensures-bind (Ensures-Anything _)
          λ _ _. Ensures-bind (Ensures-Anything _) λ _ _. Ensures-pure _ refl

  refuse_packet-Is : (d : Device) → Ensures (Is d.grspw_id) (refuse_packet {p = p} d)
  unfolding refuse_packet
  refuse_packet-Is d =
      Ensures-bind (Ensures-Anything _)
        λ _ _. Ensures-bind (Ensures-Anything _) λ _ _. Ensures-pure _ refl

  receive_by_descriptor-Is :
      (d : Device) (packet : List ℕ) (len : ℕ) (att : RecvAtt)
      → Ensures (Is d.grspw_id) (receive_by_descriptor {p = p} d packet len att)
  unfolding receive_by_descriptor
  receive_by_descriptor-Is d packet len att = Ensures-bind (Ensures-Anything _) λ _ _.
      Ensures-bind (Ensures-Anything _) λ descriptor _.
        Ensures-bind (Ensures-Anything _) λ rxd_map _.
          Ensures-if (checkbit (word 0 descriptor) c_spwtrw0_en)
            (λ _. store_packet-Is (record d { rxd_map = rxd_map }) descriptor packet len att)
            (λ _. refuse_packet-Is (record d { rxd_map = rxd_map }))

  pub rxenable-Is :
      (d : Device) (packet : List ℕ) (len : ℕ) (att : RecvAtt)
      → Ensures (Is d.grspw_id) (rxenable {p = p} d packet len att)
  unfolding rxenable accept_packet
  rxenable-Is d packet len att =
      Ensures-if (checkbit d.grspw_reg.chn c_spwchn_re)
        (λ _. Ensures-bind (Ensures-Anything _) λ node_addr _.
          Ensures-if (checkbit d.grspw_reg.ctr c_spwctr_opm || (d.grspw_reg.ndr == node_addr))
            (λ _.
              Ensures-bind
                (Ensures-if (checkbit d.grspw_reg.chn c_spwchn_rd)
                  (λ _. receive_by_descriptor-Is d packet len att) (λ _. Ensures-pure _ refl))
                λ taken same. Ensures-bind (Ensures-Anything _) λ _ _. Ensures-pure _ same)
            (λ _. Ensures-pure _ refl))
        (λ _. Ensures-pure _ refl)

  pub begin_txenable-Is :
      (d : Device)
      → Ensures (λ (r : TxState × Device). Is d.grspw_id r.1) (begin_txenable {p = p} d)
  unfolding begin_txenable send_by_descriptor
  begin_txenable-Is d =
      Ensures-if (checkbit d.grspw_reg.chn c_spwchn_te)
        (λ _. Ensures-bind (Ensures-Anything _) λ _ _.
          Ensures-bind (Ensures-Anything _) λ descriptor _.
            Ensures-bind (Ensures-Anything _) λ txd_map _.
              Ensures-if (checkbit (word 0 descriptor) c_spwtdw0_en)
                (λ _. Ensures-bind (Ensures-Anything _) λ _ _.
                  Ensures-bind (Ensures-Anything _)
                    λ _ _. Ensures-bind (Ensures-Anything _) λ _ _. Ensures-pure _ refl)
                (λ _. Ensures-pure _ refl))
        (λ _. Ensures-pure _ refl)

  pub finish_txenable-Is :
      (txd_addr cur : ℕ) (d : Device)
      → Ensures (Is d.grspw_id) (finish_txenable {p = p} txd_addr cur d)
  unfolding finish_txenable
  finish_txenable-Is txd_addr cur d = Ensures-bind (Ensures-Anything _) λ _ _.
      Ensures-bind (Ensures-Anything _) λ _ _.
        Ensures-bind (Ensures-Anything _)
          λ _ _. Ensures-bind (Ensures-Anything _) λ _ _. Ensures-pure _ refl
