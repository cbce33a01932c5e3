-- ===== src/System/Transmits.antt =====
-- A packet of the guest, from the write that transmits it to the acknowledgement.
mod Tests
use qemu_spacewire.Base.{
  ℕ, ◌+◌, ◌*◌, ◌^◌, ◌≤◌, ◌<◌, ◌≡◌, ◌≢◌, refl, sym, ◌∙◌, ap, arith, true, false, List, [], ◌∷◌, ◌++◌,
  length, some, get_elem?, set, All-get_elem?, get_elem?-set_self, index_lt,
}
use qemu_spacewire.Base.Bits.{bit, flag}
use qemu_spacewire.Host.{Platform, Host, done, pure, ◌>>=◌, trace_writereg}
use qemu_spacewire.Host.Buffer.{slice, slice-overwritten}
use qemu_spacewire.Util.Ram.{IsSized}
use qemu_spacewire.Util.Swap.{reverse_words, length-reverse_words}
use qemu_spacewire.Util.Word.{bytes_of, u32}
use qemu_spacewire.Util.Mask.{clearbit}
use qemu_spacewire.Mq.{spwq}
use qemu_spacewire.Mq.Frame.{deliver}
use qemu_spacewire.Reg.{RegOffset, e_ctr, select, offset_value, store_register, write_registers}
use qemu_spacewire.Reg.Access.{write_registers_plain}
use qemu_spacewire.Reg.Valid.Writes.{write_registers-IsValid}
use qemu_spacewire.Com.{Device}
use qemu_spacewire.Com.Descriptor.{word}
use qemu_spacewire.Com.Valid.{IsValidDevice}
use qemu_spacewire.Com.Begin.{with_registers}
use qemu_spacewire.Com.Transmit.{tx_descriptor_at}
use qemu_spacewire.Com.Emit.{
  header_length, data_length, message, emitted, hand_over, begin_txenable_hands_over,
}
use qemu_spacewire.Apb.{Pending, must_wait, write_state, core_id, reg_offset, begin_write}
use qemu_spacewire.System.{
  System, Step, bus_write, sleep, receive, external, bus_of, Bus, idle, sent, sleeping, Reach, here,
  next,
}
use qemu_spacewire.System.Reachable.{IsValidSystem, Step-IsValidSystem}
use qemu_spacewire.System.Acknowledge.{Acknowledges, acknowledgement, acknowledgement_completes}

-- The device when the value is stored in the addressed register.
abbrev pub stored : Device → ℕ → ℕ → Device
stored d addr value = record d {
  grspw_reg = store_register (reg_offset addr) d.grspw_reg (u32 value);
}

-- Its transmit descriptor in the guest's memory.
abbrev pub descriptor_of : {p : Platform} → System p → Device → List ℕ
descriptor_of s d = tx_descriptor_at d s.host

-- Where the write waits.
abbrev pub pending_of : ℕ → Device → Pending
pending_of addr d = record { core = core_id addr; txd_addr = d.grspw_reg.txd; txd_cur = d.txd_cur }

module _ {p : Platform} (s : System p) (d : Device) (addr value : ℕ) where
  abbrev traced : Host p
  traced = record s.host {
    log =
        trace_writereg (core_id addr) (offset_value (reg_offset addr)) (u32 value)
          (select (reg_offset addr) (store_register (reg_offset addr) d.grspw_reg (u32 value)))
        ∷ s.host.log;
  }

  -- The write up to its wait.
  write_sends :
      IsSized p
      → IsValidDevice d
      → get_elem? s.cores (core_id addr) ≡ some d
      → reg_offset addr ≢ e_ctr
      → d.txd_cur < 63
      → bit (stored d addr value).grspw_reg.chn 0 ≡ true
      → bit (word 0 (descriptor_of s (stored d addr value))) 12 ≡ true
      → 7
          + header_length (descriptor_of s (stored d addr value))
          + data_length (descriptor_of s (stored d addr value))
        ≤ length s.host.txbuffer
      → ((stale : ℕ)
          → (q : p.Queue) × (p.mq_send s.host.spwq
                (message (stored d addr value) (descriptor_of s (stored d addr value)) stale s.host)
              ≡ some q))
      → (stale : ℕ) × (q : p.Queue) × (xs : List ℕ) × (txbuffer : List ℕ) × (p.mq_send s.host.spwq
            (message (stored d addr value) (descriptor_of s (stored d addr value)) stale s.host)
          ≡ some q)
        × (begin_write s.cores addr value s.host
            ≡ done (
              (
                must_wait (pending_of addr (stored d addr value)),
                set s.cores
                    (core_id addr)
                    (emitted (stored d addr value) (descriptor_of s (stored d addr value)) xs),
              ),
              record traced { txbuffer = txbuffer; spwq = q },
            ))
        × (slice (8 * d.txd_cur) 16 xs ≡ some (descriptor_of s (stored d addr value)))
  unfolding begin_write write_state deliver ◌>>=◌
  write_sends m v e ne lt te en room accepts =
      let d₁ = stored d addr value in
      let descriptor = descriptor_of s d₁ in
      let written =
        write_registers_plain (core_id addr) d.grspw_reg (u32 value) s.host (reg_offset addr) ne in
      let valid = with_registers d d₁.grspw_reg v (
        write_registers-IsValid (core_id addr) d.grspw_reg (u32 value) (reg_offset addr) s.host
          v.registers_valid written) in
      let (xs, stale, rest, run, o) = begin_txenable_hands_over m d₁ traced valid lt te en room in
      let (q, sends) = accepts stale in
      let sized = m.sized s.host.memory d₁.grspw_reg.txd 16 in
      let back = slice-overwritten d.txd_map (8 * d.txd_cur) descriptor xs o in
      (
        stale,
        q,
        xs,
        message d₁ descriptor stale s.host ++ rest,
        sends,
        ground (arith, e, written, run, sends),
        rw (length-reverse_words (p.address_space_read s.host.memory d₁.grspw_reg.txd 16) ∙ sized)
            at back,
      )

-- The guest transmits a packet. The system is valid, the guest's thread is between two accesses, and
-- a read of the guest's memory gives the bytes that were asked for. The guest writes another register
-- than SPWCTR of a core whose transmitter is then enabled (TE), at a descriptor below number 63 whose
-- bit EN is '1'; the buffer has room for the packet, and the queue of the external device takes it.
-- Then the threads get to a state where the write waits and that queue has got the message with the
-- core's number, the header and the data at the descriptor's addresses; the guest's memory is as it
-- was. If the external device then puts an acknowledgement into the other queue, for a core that
-- exists, and the receive buffer has room for it, the threads get on to a state where the write is
-- over, and of the guest's memory exactly the descriptor's control word has been written, with its bit
-- EN cleared.
pub write_transmits :
    {p : Platform} (s : System p) (d : Device) (addr value grspw_id : ℕ) (devq rest : p.Queue)
    → IsSized p
    → IsValidSystem s
    → s.bus ≡ idle
    → get_elem? s.cores (core_id addr) ≡ some d
    → reg_offset addr ≢ e_ctr
    → d.txd_cur < 63
    → bit (stored d addr value).grspw_reg.chn 0 ≡ true
    → bit (word 0 (descriptor_of s (stored d addr value))) 12 ≡ true
    → 7
        + header_length (descriptor_of s (stored d addr value))
        + data_length (descriptor_of s (stored d addr value))
      ≤ length s.host.txbuffer
    → ((stale : ℕ)
        → (q : p.Queue) × (p.mq_send s.host.spwq
              (message (stored d addr value) (descriptor_of s (stored d addr value)) stale s.host)
            ≡ some q))
    → grspw_id < 4
    → 7 ≤ length s.host.rxbuffer
    → p.mq_receive devq ≡ some (acknowledgement grspw_id, rest)
    → (waits : System p) × (over : System p) × (stale : ℕ) × Reach s waits
      × (waits.bus ≡ sleeping (pending_of addr (stored d addr value)))
      × (p.mq_send s.host.spwq
            (message (stored d addr value) (descriptor_of s (stored d addr value)) stale s.host)
          ≡ some waits.host.spwq)
      × (waits.host.memory ≡ s.host.memory)
      × Reach (record waits { host = record waits.host { devq = devq } }) over
      × (over.bus ≡ idle)
      × (over.mutex_held ≡ true)
      × (over.host.memory
          ≡ p.address_space_write s.host.memory (stored d addr value).grspw_reg.txd (
              reverse_words
                (bytes_of (clearbit (word 0 (descriptor_of s (stored d addr value))) (flag 12)))))
unfolding bus_of
write_transmits {p} s d addr value grspw_id devq rest m v b e ne lt te en room accepts core_lt free
      arrives =
    let dv = All-get_elem? IsValidDevice s.cores (core_id addr) d v.cores_valid.all_valid e in
    let d₁ = stored d addr value in
    let w = pending_of addr d₁ in
    let (stale, q, xs, txbuffer, sends, run, kept) =
      write_sends s d addr value m dv e ne lt te en room accepts in
    let d₂ = emitted d₁ (descriptor_of s d₁) xs in
    let cores = set s.cores (core_id addr) d₂ in
    let h : Host p = record (traced s d addr value) { txbuffer = txbuffer; spwq = q } in
    let s₁ : System p = record s { bus = sent w; cores = cores; host = h } in
    let s₂ : System p = record s₁ { bus = sleeping w; mutex_held = false } in
    let s₃ : System p = record s₂ { host = record h { devq = devq } } in
    let first : Step s s₁ = bus_write addr value _ cores h b run refl in
    let second : Step s₁ s₂ = sleep w refl refl in
    let third : Step s₂ s₃ = external q devq s.host.memory refl in
    let v₃ =
      Step-IsValidSystem m third (Step-IsValidSystem m second (Step-IsValidSystem m first v)) in
    let (t, reach, idle_again, held, memory) =
      acknowledgement_completes s₃ w d₂ (descriptor_of s d₁) grspw_id rest v₃ refl
        (record { core_lt = core_lt; room = free; arrives = arrives })
        (get_elem?-set_self s.cores (core_id addr) d₂ (index_lt s.cores (core_id addr) d e)) kept in
    (
      s₂,
      t,
      stale,
      next (next here first) second,
      refl,
      sends,
      refl,
      reach,
      idle_again,
      held,
      memory,
    )
