-- ===== src/System/Acknowledge.antt =====
-- The acknowledgement of the external device, when the write waits for it and when it does not yet.
use qemu_spacewire.Base.{
  ℕ, ◌*◌, ◌≤◌, ◌<◌, ◌≡◌, refl, arith, true, false, List, [], ◌∷◌, ◌++◌, length, some, get_elem?,
  All-get_elem?, set,
}
use qemu_spacewire.Base.Bits.{flag}
use qemu_spacewire.Host.{Platform, Host, done, ◌>>=◌}
use qemu_spacewire.Host.Buffer.{slice}
use qemu_spacewire.Util.Word.{bytes_of, length-bytes_of}
use qemu_spacewire.Util.Mask.{clearbit}
use qemu_spacewire.Util.Swap.{reverse_words}
use qemu_spacewire.Mq.{devq, receive_devpacket}
use qemu_spacewire.Mq.Receive.{parse_message, mq_receive_devq}
use qemu_spacewire.Com.{Device}
use qemu_spacewire.Com.Descriptor.{word}
use qemu_spacewire.Com.Valid.{IsValidDevice}
use qemu_spacewire.Com.Transmit.{finish_txenable_lem}
use qemu_spacewire.Core.{RxThread, dispatch, rxthread_round}
use qemu_spacewire.Core.Valid.{IsValidCores}
use qemu_spacewire.Apb.{Pending, finish_write}
use qemu_spacewire.Apb.Valid.{IsValidPending}
use qemu_spacewire.System.{
  System, idle, sent, sleeping, woken, signal, Step, bus_read, bus_write, sleep, spurious, resume,
  receive, external, Reach, here, next,
}
use qemu_spacewire.System.Reachable.{IsValidSystem, IsValidBus}

-- The message that acknowledges a packet: a core, C_MSGQ_ACK, no header and no data.
abbrev pub acknowledgement : ℕ → List ℕ
acknowledgement grspw_id = grspw_id ∷ 0 ∷ 0 ∷ bytes_of 0

-- It is the next message for the receive thread, which has room for it; `rest` is the queue after it.
pub record Acknowledges {p : Platform} (h : Host p) (grspw_id : ℕ) (rest : p.Queue) : Type 0 where
  pub core_lt : grspw_id < 4
  pub room : 7 ≤ length h.rxbuffer
  pub arrives : p.mq_receive h.devq ≡ some (acknowledgement grspw_id, rest)

module _ {p : Platform} where
  -- A round on an acknowledgement signals, and changes nothing but the queue and its own buffer.
  ack_round :
      (rx : RxThread) (cores : List Device) (h : Host p) (grspw_id : ℕ) (rest : p.Queue)
      → Acknowledges h grspw_id rest
      → (buffer : List ℕ) × (rxthread_round rx cores h
          ≡ done (
            record { signals = true; rx = rx; cores = cores },
            record h { rxbuffer = buffer; devq = rest },
          ))
  unfolding rxthread_round receive_devpacket dispatch ◌>>=◌
  ack_round rx cores h grspw_id rest a =
      let (back, got) =
        mq_receive_devq h (acknowledgement grspw_id) rest a.arrives
          (omega (arith, a.room, length-bytes_of 0)) in
      let after : Host p = record h { rxbuffer = acknowledgement grspw_id ++ back; devq = rest } in
      let parse =
        parse_message after grspw_id 0 0 0 [] [] [] back devq h [] rx.g_rxheader [] rx.g_rxdata got
          refl refl refl refl refl (omega arith) a.core_lt in
      (acknowledgement grspw_id ++ back, ground (arith, parse))

  -- What the end of a write does to the guest's memory.
  finish_write_lem :
      (cores : List Device) (w : Pending) (d : Device) (descriptor : List ℕ) (h : Host p)
      → IsValidCores cores
      → IsValidPending w
      → get_elem? cores w.core ≡ some d
      → slice (8 * w.txd_cur) 16 d.txd_map ≡ some descriptor
      → (cores' : List Device) × (h' : Host p) × (finish_write cores w h ≡ done (cores', h'))
        × (h'.memory
            ≡ p.address_space_write h.memory w.txd_addr
                (reverse_words (bytes_of (clearbit (word 0 descriptor) (flag 12)))))
  unfolding finish_write ◌>>=◌
  finish_write_lem cores w d descriptor h v f e s =
      let dv = All-get_elem? IsValidDevice cores w.core d v.all_valid e in
      let (d', h', run, mem, _, _, _, _) =
        finish_txenable_lem w.txd_addr w.txd_cur d descriptor h dv f.cur_lt s in
      (set cores w.core d', h', ground (arith, e, run), mem)

-- An acknowledgement that is the next message while a write waits for it completes the write: in a
-- valid system the receive thread and then the guest's thread take it to a state where the bus is
-- idle and the mutex is owned by the guest's thread, and of the guest's memory exactly the
-- descriptor's control word has been written, with its bit EN cleared.
pub acknowledgement_completes :
    {p : Platform} (s : System p) (w : Pending) (d : Device) (descriptor : List ℕ) (grspw_id : ℕ)
    (rest : p.Queue)
    → IsValidSystem s
    → s.bus ≡ sleeping w
    → Acknowledges s.host grspw_id rest
    → get_elem? s.cores w.core ≡ some d
    → slice (8 * w.txd_cur) 16 d.txd_map ≡ some descriptor
    → (t : System p) × Reach s t
      × (t.bus ≡ idle)
      × (t.mutex_held ≡ true)
      × (t.host.memory
          ≡ p.address_space_write s.host.memory w.txd_addr
              (reverse_words (bytes_of (clearbit (word 0 descriptor) (flag 12)))))
unfolding signal
acknowledgement_completes {p} s w d descriptor grspw_id rest v b a e sl =
    let ok : IsValidBus (sleeping w) s.mutex_held = rw b at v.bus_valid in
    let (buffer, round) = ack_round s.rx s.cores s.host grspw_id rest a in
    let h₁ : Host p = record s.host { rxbuffer = buffer; devq = rest } in
    let (cores, h₂, run, mem) =
      finish_write_lem s.cores w d descriptor h₁ v.cores_valid ok.0 e sl in
    let s₁ : System p = record s { bus = woken w; host = h₁ } in
    let s₂ : System p = record s₁ { bus = idle; mutex_held = true; cores = cores; host = h₂ } in
    (
      s₂,
      next {t = s₁} (next {t = s} here (receive _ h₁ round (rw b refl)))
          (resume w cores h₂ refl ok.1 run refl),
      refl,
      refl,
      mem,
    )

-- An acknowledgement that the receive thread takes after the packet was sent and before the write
-- waits is lost: the write goes to its wait all the same, and the message has left the queue.
pub acknowledgement_lost :
    {p : Platform} (s : System p) (w : Pending) (grspw_id : ℕ) (rest : p.Queue)
    → s.bus ≡ sent w
    → Acknowledges s.host grspw_id rest
    → (t : System p) × Reach s t × (t.bus ≡ sleeping w) × (t.host.devq ≡ rest) × (t.cores ≡ s.cores)
unfolding signal
acknowledgement_lost {p} s w grspw_id rest b a =
    let (buffer, round) = ack_round s.rx s.cores s.host grspw_id rest a in
    let h₁ : Host p = record s.host { rxbuffer = buffer; devq = rest } in
    let s₁ : System p = record s { host = h₁ } in
    let s₂ : System p = record s₁ { bus = sleeping w; mutex_held = false } in
    (
      s₂,
      next {t = s₁} (next {t = s} here (receive _ h₁ round (rw b refl))) (sleep w b refl),
      refl,
      refl,
      refl,
    )

-- A step that wakes nobody: no return of the wait without a signal, and no acknowledgement received.
abbrev pub IsQuiet : {p : Platform} {s t : System p} → Step s t → Type 0
IsQuiet (spurious w b e) = ⊥
IsQuiet (receive r h run e) = r.signals ≡ false
IsQuiet _ = Unit {0}

pub data QuietReach {p : Platform} (s : System p) : System p → Type 0 where
  quiet_here : QuietReach s s
  quiet_next : {t u : System p} → QuietReach s t → (st : Step t u) → IsQuiet st → QuietReach s u

stays_asleep :
    {p : Platform} {s t : System p} (w : Pending) (st : Step s t)
    → IsQuiet st
    → s.bus ≡ sleeping w
    → t.bus ≡ sleeping w
unfolding signal
stays_asleep w (bus_read addr value h i f run e) q b = cc (e, b)
stays_asleep w (bus_write addr value x cores h i run e) q b = cc (i, b)
stays_asleep w (sleep x i e) q b = cc (i, b)
stays_asleep w (spurious x i e) q b = absurd q
stays_asleep w (resume x cores h i f run e) q b = cc (i, b)
stays_asleep w (receive r h run e) q b = ground (arith, e, q, b)
stays_asleep w (external q₁ q₂ memory e) q b = cc (e, b)

-- A write that waits keeps waiting until an acknowledgement is received or the wait returns with no
-- signal, whatever else the threads and the external device do meanwhile.
pub QuietReach-sleeping :
    {p : Platform} {s t : System p} (w : Pending)
    → s.bus ≡ sleeping w
    → QuietReach s t
    → t.bus ≡ sleeping w
QuietReach-sleeping w b quiet_here = b
QuietReach-sleeping w b (quiet_next before st q) =
    stays_asleep w st q (QuietReach-sleeping w b before)
