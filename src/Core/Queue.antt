-- ===== src/Core/Queue.antt =====
-- Handling a message takes nothing more from the queue.
use qemu_spacewire.Base.{ℕ, Bool, List, ◌≡◌, refl, sym, ◌==◌}
use qemu_spacewire.Host.{Platform, Host, M, append_log, LogEntry}
use qemu_spacewire.Host.Keeps.{Keeps, Keeps-pure, Keeps-bind, Keeps-if, Keeps-or_fault}
use qemu_spacewire.Host.Ensures.{Ensures, Ensures-pure, Ensures-bind, Ensures-if, Ensures-Anything}
use qemu_spacewire.Util.Ram.{write_leon3_ram, address_space_write}
use qemu_spacewire.Mq.{Packet, c_msgq_ack, c_msgq_data, c_msgq_time}
use qemu_spacewire.Reg.{Registers}
use qemu_spacewire.Com.{
  Device, RecvAtt, when, qemu_irq_pulse, rxtimecode, warn_discarded, store_packet, refuse_packet,
  receive_by_descriptor, accept_packet, rxenable,
}
use qemu_spacewire.Com.Sends.{read_leon3_ram-Keeps}
use qemu_spacewire.Core.{RxThread, RxRound, with_core, dispatch}

module _ {p : Platform} where
  -- What is received next: the queue, and the buffer that its messages go to.
  abbrev pub incoming : Host p → p.Queue × List ℕ
  incoming h = (h.devq, h.rxbuffer)

  when-Keeps : (b : Bool) {m : M p (Unit {0})} → Keeps incoming m → Keeps incoming (when b m)
  when-Keeps b k = Keeps-if incoming b k (Keeps-pure incoming tt)

  append_log-Keeps : (entry : LogEntry) → Keeps incoming (append_log {p = p} entry)
  append_log-Keeps entry = record { keeps = λ h h' a e. cc e }

  qemu_irq_pulse-Keeps : (line : ℕ) → Keeps incoming (qemu_irq_pulse {p = p} line)
  unfolding qemu_irq_pulse
  qemu_irq_pulse-Keeps line = record { keeps = λ h h' a e. cc e }

  write_leon3_ram-Keeps :
      (addr : ℕ) (buff : List ℕ) (len : ℕ) (swap : Bool)
      → Keeps incoming (write_leon3_ram {p = p} addr buff len swap)
  unfolding write_leon3_ram address_space_write
  write_leon3_ram-Keeps addr buff len swap =
      Keeps-bind incoming
        (Keeps-if incoming swap (Keeps-or_fault incoming _) (Keeps-or_fault incoming _))
        λ tmp. record { keeps = λ h h' a e. cc e }

  warn_discarded-Keeps : (r : Registers) → Keeps incoming (warn_discarded {p = p} r)
  unfolding warn_discarded
  warn_discarded-Keeps r = when-Keeps _ (append_log-Keeps _)

  store_packet-Keeps :
      (d : Device) (descriptor packet : List ℕ) (len : ℕ) (att : RecvAtt)
      → Keeps incoming (store_packet {p = p} d descriptor packet len att)
  unfolding store_packet
  store_packet-Keeps d descriptor packet len att =
      Keeps-bind incoming (when-Keeps _ (append_log-Keeps _)) λ _.
        Keeps-bind incoming (write_leon3_ram-Keeps _ _ _ _) λ _.
          Keeps-bind incoming (Keeps-or_fault incoming _) λ xs.
            Keeps-bind incoming (write_leon3_ram-Keeps _ _ _ _) λ _.
              Keeps-bind incoming (when-Keeps _ (qemu_irq_pulse-Keeps _)) λ _. Keeps-pure incoming _

  refuse_packet-Keeps : (d : Device) → Keeps incoming (refuse_packet {p = p} d)
  unfolding refuse_packet
  refuse_packet-Keeps d =
      Keeps-bind incoming (append_log-Keeps _)
        λ _. Keeps-bind incoming (warn_discarded-Keeps _) λ _. Keeps-pure incoming _

  receive_by_descriptor-Keeps :
      (d : Device) (packet : List ℕ) (len : ℕ) (att : RecvAtt)
      → Keeps incoming (receive_by_descriptor {p = p} d packet len att)
  unfolding receive_by_descriptor
  receive_by_descriptor-Keeps d packet len att =
      Keeps-bind incoming (Keeps-or_fault incoming _) λ old.
        Keeps-bind incoming (read_leon3_ram-Keeps incoming _ _ _ _) λ descriptor.
          Keeps-bind incoming (Keeps-or_fault incoming _)
            λ xs. Keeps-if incoming _ (store_packet-Keeps _ _ _ _ _) (refuse_packet-Keeps _)

  rxenable-Keeps :
      (d : Device) (packet : List ℕ) (len : ℕ) (att : RecvAtt)
      → Keeps incoming (rxenable {p = p} d packet len att)
  unfolding rxenable accept_packet
  rxenable-Keeps d packet len att =
      Keeps-if incoming _
        (Keeps-bind incoming (Keeps-or_fault incoming _) λ node_addr.
          Keeps-if incoming _
            (Keeps-bind incoming
              (Keeps-if incoming _ (receive_by_descriptor-Keeps _ _ _ _) (Keeps-pure incoming _))
              λ taken. Keeps-bind incoming (warn_discarded-Keeps _) λ _. Keeps-pure incoming _)
            (Keeps-pure incoming _))
        (Keeps-pure incoming _)

  rxtimecode-Keeps : (d : Device) (timecode : ℕ) → Keeps incoming (rxtimecode {p = p} d timecode)
  unfolding rxtimecode
  rxtimecode-Keeps d timecode =
      Keeps-if incoming _
        (Keeps-bind incoming (when-Keeps _ (qemu_irq_pulse-Keeps _)) λ _. Keeps-pure incoming _)
        (Keeps-pure incoming _)

  with_core-Keeps :
      (cores : List Device) (i : ℕ) (handler : Device → M p Device)
      → ((d : Device) → Keeps incoming (handler d))
      → Keeps incoming (with_core cores i handler)
  unfolding with_core
  with_core-Keeps cores i handler keeps =
      Keeps-bind incoming (Keeps-or_fault incoming _)
        λ d. Keeps-bind incoming (keeps d) λ d'. Keeps-pure incoming _

  pub dispatch-Keeps :
      (rx : RxThread) (cores : List Device) (pkt : Packet)
      → Keeps incoming (dispatch {p = p} rx cores pkt)
  unfolding dispatch
  dispatch-Keeps rx cores pkt =
      Keeps-if incoming (pkt.pword == c_msgq_ack) (Keeps-pure incoming _) (
        Keeps-if incoming (pkt.pword == c_msgq_data)
          (Keeps-bind incoming (with_core-Keeps cores pkt.grspw_id _ λ d. rxenable-Keeps d _ _ _)
            λ cores'. Keeps-pure incoming _)
          (Keeps-if incoming (pkt.pword == c_msgq_time)
            (Keeps-bind incoming (Keeps-or_fault incoming _) λ timecode.
              Keeps-bind incoming (with_core-Keeps cores pkt.grspw_id _ λ d. rxtimecode-Keeps d _)
                λ cores'. Keeps-pure incoming _)
            (Keeps-pure incoming _)))

  -- The transmitting side is signalled by an acknowledgement and by nothing else, and the buffers of
  -- the thread stay as they are.
  pub dispatch-signals :
      (rx : RxThread) (cores : List Device) (pkt : Packet)
      → Ensures
          (λ (r : RxRound). (r.signals ≡ (pkt.pword == c_msgq_ack)) × (r.rx ≡ rx))
          (dispatch {p = p} rx cores pkt)
  unfolding dispatch
  dispatch-signals rx cores pkt =
      Ensures-if (pkt.pword == c_msgq_ack) (λ e. Ensures-pure _ (sym e, refl))
        λ e.
          Ensures-if (pkt.pword == c_msgq_data)
            (λ _. Ensures-bind (Ensures-Anything _) λ cores' _. Ensures-pure _ (sym e, refl))
            λ _.
              Ensures-if (pkt.pword == c_msgq_time)
                (λ _. Ensures-bind (Ensures-Anything _) λ timecode _.
                  Ensures-bind (Ensures-Anything _) λ cores' _. Ensures-pure _ (sym e, refl))
                (λ _. Ensures-pure _ (sym e, refl))
