-- ===== src/System/Progress.antt =====
-- The receive thread goes through its queue.
use qemu_spacewire.Base.{
  ℕ, ◌+◌, ◌^◌, ◌≤◌, ◌<◌, ◌≡◌, refl, sym, ◌∙◌, ap, arith, List, [], ◌∷◌, length, some, All, ◌==◌,
  ◌||◌, ◌++◌, Bool, false, length-append,
}
use qemu_spacewire.Host.{Platform, Host}
use qemu_spacewire.Host.Bind.{done-bind}
use qemu_spacewire.Util.Ram.{IsSized}
use qemu_spacewire.Mq.{Packet, c_msgq_ack}
use qemu_spacewire.Mq.Plain.{plain_message, receive_plain}
use qemu_spacewire.Core.{RxThread, rxthread_round}
use qemu_spacewire.Core.Valid.{dispatch-Always}
use qemu_spacewire.Core.Queue.{dispatch-Keeps, dispatch-signals}
use qemu_spacewire.System.{System, Step, receive, signal, Reach, here, next}
use qemu_spacewire.System.Signal.{signal-false, signal-signal}
use qemu_spacewire.System.Reachable.{IsValidSystem, Step-IsValidSystem}

-- A message without a header.
pub record Message : Type 0 where
  pub grspw_id : ℕ
  pub pword : ℕ
  pub packet : List ℕ

-- It is for a core that exists, and fits a receive buffer and a data buffer of the given lengths.
pub record Fits (buffer data_buffer : ℕ) (message : Message) : Type 0 where
  pub core_lt : message.grspw_id < 4
  pub length_lt : length message.packet < 2 ^ 32
  pub room : 7 + length message.packet ≤ buffer
  pub data_room : length message.packet ≤ data_buffer

-- The messages are the next ones of a queue, in their order, and leave another.
abbrev pub Holds : (p : Platform) → p.Queue → List Message → p.Queue → Type 0
Holds p queue [] after = queue ≡ after
Holds p queue (message ∷ messages) after =
    (rest : p.Queue) × (p.mq_receive queue
      ≡ some (plain_message message.grspw_id message.pword message.packet, rest))
    × Holds p rest messages after

-- One of the messages is an acknowledgement.
abbrev pub acknowledges : List Message → Bool
acknowledges [] = false
acknowledges (message ∷ messages) = message.pword == c_msgq_ack || acknowledges messages

module _ {p : Platform} (m : IsSized p) where
  -- One message is handled in one step.
  message_is_handled :
      (s : System p) (message : Message) (rest : p.Queue)
      → IsValidSystem s
      → Fits (length s.host.rxbuffer) (length s.rx.g_rxdata) message
      → p.mq_receive s.host.devq
        ≡ some (plain_message message.grspw_id message.pword message.packet, rest)
      → (t : System p) × Step s t
        × (t.host.devq ≡ rest)
        × (t.bus ≡ signal (message.pword == c_msgq_ack) s.bus)
        × (length t.host.rxbuffer ≡ length s.host.rxbuffer)
        × (length t.rx.g_rxdata ≡ length s.rx.g_rxdata)
  unfolding rxthread_round
  message_is_handled s message rest v fits arrives =
      let (back, buffer, parse, l, n) =
        receive_plain s.host message.grspw_id message.pword message.packet s.rx.g_rxheader
          s.rx.g_rxdata rest fits.core_lt fits.length_lt fits.room fits.data_room arrives in
      let pkt : Packet = record {
        grspw_id = message.grspw_id;
        pword = message.pword;
        header = s.rx.g_rxheader;
        header_len = 0;
        payload = message.packet ++ back;
        data_len = length message.packet;
      } in
      let rx : RxThread = record s.rx { g_rxdata = message.packet ++ back } in
      let h₁ : Host p = record s.host { rxbuffer = buffer; devq = rest } in
      let (r, h', run, _) =
        (dispatch-Always m rx s.cores pkt (omega (arith, l, v.rx_valid)) v.cores_valid
            (omega (arith, length-append message.packet back)) fits.core_lt).returns
          h₁ in
      let kept = (dispatch-Keeps rx s.cores pkt).keeps h₁ h' r run in
      let (signals, same_rx) = (dispatch-signals rx s.cores pkt).ensures h₁ h' r run in
      (
        record s { bus = signal r.signals s.bus; rx = r.rx; cores = r.cores; host = h' },
        receive r h' (done-bind _ _ s.host h₁ pkt parse ∙ run) refl,
        ap (λ x. x.0) kept,
        ap (λ b. signal b s.bus) signals,
        ap (λ x. length x.1) kept ∙ n,
        ap (λ x. length x.g_rxdata) same_rx ∙ l,
      )

  handled_from :
      (s₀ s : System p) (messages : List Message) (after : p.Queue)
      → Reach s₀ s
      → IsValidSystem s
      → All (Fits (length s.host.rxbuffer) (length s.rx.g_rxdata)) messages
      → Holds p s.host.devq messages after
      → (t : System p) × Reach s₀ t
        × (t.host.devq ≡ after)
        × (t.bus ≡ signal (acknowledges messages) s.bus)
        × IsValidSystem t
  handled_from s₀ s [] after reach v fits holds = (s, reach, holds, sym (signal-false s.bus), v)
  handled_from s₀ s (message ∷ messages) after reach v (fit, fits) (rest, arrives, holds) =
      let (t, step, q, b, n, l) = message_is_handled s message rest v fit arrives in
      let (u, reached, e, bus, w) =
        handled_from s₀ t messages after (next reach step) (Step-IsValidSystem m step v)
          (rw (n, l) fits) (rw q holds) in
      (
        u,
        reached,
        e,
        bus
            ∙ ap (signal (acknowledges messages)) b
            ∙ signal-signal (message.pword == c_msgq_ack) (acknowledges messages) s.bus,
        w,
      )

-- The receive thread works off its queue. A read of the guest's memory gives the bytes that were asked
-- for, the state is valid, and the queue holds messages without a header, each for a core that exists
-- and no longer than the two receive buffers. Then the threads can get to a valid state in which the
-- queue is what it was after them, whatever the protocol words and the states of the cores. A write
-- that waits there is woken where one of the messages is an acknowledgement, and waits on where none
-- is.
pub messages_are_handled :
    {p : Platform} (s : System p) (messages : List Message) (after : p.Queue)
    → IsSized p
    → IsValidSystem s
    → All (Fits (length s.host.rxbuffer) (length s.rx.g_rxdata)) messages
    → Holds p s.host.devq messages after
    → (t : System p) × Reach s t
      × (t.host.devq ≡ after)
      × (t.bus ≡ signal (acknowledges messages) s.bus)
      × IsValidSystem t
messages_are_handled s messages after m v fits holds =
    handled_from m s s messages after here v fits holds
