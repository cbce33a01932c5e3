-- ===== src/Com/Sends.antt =====
-- The parts of grlib_comgrspw_txenable up to the wait: how they end, and that they write nothing to the
-- guest's memory.
use qemu_spacewire.Base.{
  ℕ, ◌<◌, ◌≡◌, refl, ◌∙◌, ap, arith, Bool, true, false, List, length, ◌⊎◌, inl, inr, Bool-cases,
  Option-cases, ltb, leb,
}
use qemu_spacewire.Base.Bits.{bit, flag, bit-flag}
use qemu_spacewire.Host.{Platform, Host, M, done, fault, ◌>>=◌}
use qemu_spacewire.Host.Buffer.{overwrite, prefix}
use qemu_spacewire.Host.Ensures.{Ensures, Ensures-pure, Ensures-bind, Ensures-Anything}
use qemu_spacewire.Host.Keeps.{Keeps, Keeps-pure, Keeps-bind, Keeps-if, Keeps-or_fault}
use qemu_spacewire.Util.Mask.{clearbit}
use qemu_spacewire.Util.Mask.Bits.{checkbit-flag, bit-clearbit}
use qemu_spacewire.Util.Ram.{IsSized, read_leon3_ram, address_space_read}
use qemu_spacewire.Mq.{spwq, store_tx, memcpy_tx, mq_send, send_packet, send_spwpacket}
use qemu_spacewire.Com.{Device, TxState, waiting, begin_txenable, send_by_descriptor, txenable}
use qemu_spacewire.Com.Descriptor.{word}
use qemu_spacewire.Com.Valid.{IsValidDevice}
use qemu_spacewire.Com.Emit.{emitted, begin_sends}
use qemu_spacewire.Com.Transmit.{tx_descriptor_at, last_tx_descriptor_faults, txenable_stops}

te_cleared : (chn : ℕ) → bit (clearbit chn (flag 0)) 0 ≡ false
te_cleared chn = ground (arith, bit-clearbit chn (flag 0) 0 (omega arith), bit-flag 0 0)

module _ {p : Platform} where
  abbrev pub memory_of : Host p → p.Memory
  memory_of h = h.memory

  store_tx-Keeps : (offset : ℕ) (bytes : List ℕ) → Keeps memory_of (store_tx {p = p} offset bytes)
  unfolding store_tx
  store_tx-Keeps offset bytes = record {
    keeps = λ h h' a e. elim (Option-cases (overwrite h.txbuffer offset bytes)) [
      | inl n ↦ ground (arith, e, n)
      | inr (xs, s) ↦ ground (arith, e, s)
    ];
  }

  memcpy_tx-Keeps :
      (offset : ℕ) (src : List ℕ) (len : ℕ) → Keeps memory_of (memcpy_tx {p = p} offset src len)
  unfolding memcpy_tx
  memcpy_tx-Keeps offset src len =
      Keeps-if memory_of (ltb 0 len)
        (Keeps-bind memory_of (Keeps-or_fault memory_of (prefix len src)) (store_tx-Keeps offset))
        (Keeps-pure memory_of tt)

  mq_send_spwq-Keeps : (len : ℕ) → Keeps memory_of (mq_send {p = p} spwq len)
  unfolding mq_send
  mq_send_spwq-Keeps len = record {
    keeps = λ h h' a e. elim (Option-cases (prefix len h.txbuffer)) [
      | inl n ↦ absurd (ground (arith, e, n))
      | inr (m, s) ↦ elim (Option-cases (p.mq_send h.spwq m)) [
        | inl n ↦ absurd (ground (arith, e, s, n))
        | inr (queue, t) ↦ ground (arith, e, s, t)
      ]
    ];
  }

  send_spwpacket-Keeps :
      (grspw_id pword : ℕ) (header : List ℕ) (header_len : ℕ) (payload : List ℕ) (data_len : ℕ)
      → Keeps memory_of (send_spwpacket {p = p} grspw_id pword header header_len payload data_len)
  unfolding send_spwpacket send_packet
  send_spwpacket-Keeps grspw_id pword header header_len payload data_len =
      Keeps-bind memory_of (store_tx-Keeps _ _) λ _. Keeps-bind memory_of (store_tx-Keeps _ _) λ _.
        Keeps-bind memory_of (store_tx-Keeps _ _) λ _.
          Keeps-bind memory_of (memcpy_tx-Keeps _ _ _) λ _.
            Keeps-bind memory_of (store_tx-Keeps _ _)
              λ _. Keeps-bind memory_of (memcpy_tx-Keeps _ _ _) λ _. mq_send_spwq-Keeps _

  -- A read changes nothing.
  pub read_leon3_ram-Keeps :
      {B : Type 0} (part : Host p → B) (addr : ℕ) (buff : List ℕ) (len : ℕ) (swap : Bool)
      → Keeps part (read_leon3_ram {p = p} addr buff len swap)
  unfolding read_leon3_ram address_space_read
  read_leon3_ram-Keeps part addr buff len swap =
      Keeps-bind part (record { keeps = λ h h' a e. cc e })
        λ tmp. Keeps-if part swap (Keeps-or_fault part _) (
          Keeps-if part (ltb len 0x8000_0000)
            (Keeps-bind part (Keeps-or_fault part _) λ bytes. Keeps-or_fault part _)
            (record { keeps = λ h h' a e. ground (arith, e) }))

  -- The packet of a descriptor, sent: what it returns, and that it writes nothing to the guest.
  pub send_by_descriptor-Ensures :
      (d : Device) (xs descriptor : List ℕ)
      → Ensures
          (λ (r : TxState × Device).
            r ≡ (waiting d.grspw_reg.txd d.txd_cur, emitted d descriptor xs))
          (send_by_descriptor {p = p} (record d { txd_map = xs }) descriptor)
  unfolding send_by_descriptor
  send_by_descriptor-Ensures d xs descriptor = Ensures-bind (Ensures-Anything _) λ payload _.
      Ensures-bind (Ensures-Anything _)
        λ header _. Ensures-bind (Ensures-Anything _) λ _ _. Ensures-pure _ refl

  pub send_by_descriptor-Keeps :
      (d : Device) (descriptor : List ℕ) → Keeps memory_of (send_by_descriptor {p = p} d descriptor)
  unfolding send_by_descriptor
  send_by_descriptor-Keeps d descriptor =
      Keeps-bind memory_of (read_leon3_ram-Keeps memory_of _ _ _ _) λ payload.
        Keeps-bind memory_of (read_leon3_ram-Keeps memory_of _ _ _ _) λ header.
          Keeps-bind memory_of (send_spwpacket-Keeps _ _ _ _ _ _) λ _. Keeps-pure memory_of _

  -- With the transmitter off.
  pub off-stops :
      (wait : Device → M p Device) (d : Device) (h : Host p)
      → bit d.grspw_reg.chn 0 ≡ false
      → txenable wait d h ≡ done ((true, d), h)
  unfolding txenable begin_txenable ◌>>=◌
  off-stops wait d h off = ground (arith, off, checkbit-flag d.grspw_reg.chn 0)

  module _ (m : IsSized p) (wait : Device → M p Device) (d : Device) (h : Host p)
      (v : IsValidDevice d) where
    -- The call ends at once, with TE off, or goes beyond the array, or sends the packet of an enabled
    -- descriptor.
    pub txenable-cases :
        (txenable wait d h ≡ fault)
        ⊎ (((d' : Device) × (txenable wait d h ≡ done ((true, d'), h))
              × (bit d'.grspw_reg.chn 0 ≡ false))
            ⊎ ((xs : List ℕ) × (length xs ≡ 512)
                × (bit (word 0 (tx_descriptor_at d h)) 12 ≡ true)
                × (d.txd_cur < 63)
                × (begin_txenable d h
                    ≡ send_by_descriptor (record d { txd_map = xs }) (tx_descriptor_at d h) h)))
    txenable-cases = elim (Bool-cases (bit d.grspw_reg.chn 0)) [
      | inr off ↦ inr (inl (d, off-stops wait d h off, off))
      | inl te ↦ elim (Bool-cases (leb 63 d.txd_cur)) [
        | inl last ↦
            inl (last_tx_descriptor_faults d wait h v te (ground (arith, last, v.txd_cur_lt)))
        | inr inside ↦
            let lt : d.txd_cur < 63 = ground (arith, inside) in
            elim (Bool-cases (bit (word 0 (tx_descriptor_at d h)) 12)) [
              | inr dis ↦
                  let (d', run, _, regs) = txenable_stops d wait h m v lt te dis in
                  inr (inl (d', run, ap (λ r. bit r.chn 0) regs ∙ te_cleared d.grspw_reg.chn))
              | inl en ↦
                  let (xs, run, _, l) = begin_sends m d h v lt te en in
                  inr (inr (xs, l, en, lt, run))
            ]
      ]
    ]
