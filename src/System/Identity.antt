-- ===== src/System/Identity.antt =====
-- The numbers of the cores, in every state that the process can get to. A core sends packets and
-- raises interrupts by its number, and is selected by its place among the cores.
use qemu_spacewire.Base.{
  ℕ, zero, suc, List, [], ◌∷◌, ◌≡◌, refl, ◌∙◌, ap, arith, map, get_elem?, set, some, ◌==◌,
}
use qemu_spacewire.Host.{Platform, Host, M}
use qemu_spacewire.Host.Ensures.{
  Ensures, Ensures-pure, Ensures-bind, Ensures-if, Ensures-Anything, Ensures-or_fault,
}
use qemu_spacewire.Mq.{c_msgq_ack, c_msgq_data, c_msgq_time}
use qemu_spacewire.Com.{Device}
use qemu_spacewire.Com.Identity.{
  Is, rxtimecode-Is, rxenable-Is, begin_txenable-Is, finish_txenable-Is,
}
use qemu_spacewire.Core.{RxThread, RxRound, with_core, dispatch, rxthread_round}
use qemu_spacewire.Apb.{
  core_id, Pending, WriteState, begin_write, finish_write, init_core, init_cores,
}
use qemu_spacewire.System.{
  System, Step, bus_read, bus_write, sleep, spurious, resume, receive, external, Reach, here, next,
  start, zeroed_device,
}

-- The numbers of the cores, from the first one on.
abbrev pub numbers : List Device → List ℕ
numbers cores = map (λ d. d.grspw_id) cores

numbers-set :
    (cores : List Device) (i : ℕ) (d d' : Device)
    → get_elem? cores i ≡ some d
    → Is d.grspw_id d'
    → numbers (set cores i d') ≡ numbers cores
numbers-set [] i d d' e same = refl
numbers-set (c ∷ cores) zero d d' e same = ground (arith, e, same)
numbers-set (c ∷ cores) (suc i) d d' e same =
    ap (λ ns. c.grspw_id ∷ ns) (numbers-set cores i d d' e same)

-- The numbers of the cores are `ns`.
abbrev Numbered : List ℕ → List Device → Type 0
Numbered ns cores = numbers cores ≡ ns

module _ {p : Platform} where
  with_core-Numbered :
      (cores : List Device) (i : ℕ) (handler : Device → M p Device)
      → ((d : Device) → Ensures (Is d.grspw_id) (handler d))
      → Ensures (Numbered (numbers cores)) (with_core cores i handler)
  unfolding with_core
  with_core-Numbered cores i handler keeps =
      Ensures-bind {Q = λ d. get_elem? cores i ≡ some d} (Ensures-or_fault _ λ d e. e)
        λ d e. Ensures-bind (keeps d) λ d' same. Ensures-pure _ (numbers-set cores i d d' e same)

  rxthread_round-Numbered :
      (rx : RxThread) (cores : List Device)
      → Ensures
          (λ (r : RxRound). Numbered (numbers cores) r.cores)
          (rxthread_round {p = p} rx cores)
  unfolding rxthread_round dispatch
  rxthread_round-Numbered rx cores = Ensures-bind (Ensures-Anything _) λ pkt _.
      Ensures-if (pkt.pword == c_msgq_ack) (λ _. Ensures-pure _ refl)
        λ _.
          Ensures-if (pkt.pword == c_msgq_data)
            (λ _.
              Ensures-bind (with_core-Numbered cores pkt.grspw_id _ λ d. rxenable-Is d _ _ _)
                λ cores' same. Ensures-pure _ same)
            λ _.
              Ensures-if (pkt.pword == c_msgq_time)
                (λ _. Ensures-bind (Ensures-Anything _) λ timecode _.
                  Ensures-bind (with_core-Numbered cores pkt.grspw_id _ λ d. rxtimecode-Is d _)
                    λ cores' same. Ensures-pure _ same)
                (λ _. Ensures-pure _ refl)

  begin_write-Numbered :
      (cores : List Device) (addr value : ℕ)
      → Ensures
          (λ (r : WriteState × List Device). Numbered (numbers cores) r.1)
          (begin_write {p = p} cores addr value)
  unfolding begin_write
  begin_write-Numbered cores addr value =
      Ensures-bind {Q = λ d. get_elem? cores (core_id addr) ≡ some d} (Ensures-or_fault _ λ d e. e)
        λ d e. Ensures-bind (Ensures-Anything _) λ r _.
          Ensures-bind (begin_txenable-Is (record d { grspw_reg = r }))
            λ begun same. Ensures-pure _ (numbers-set cores (core_id addr) d begun.1 e same)

  finish_write-Numbered :
      (cores : List Device) (w : Pending)
      → Ensures (Numbered (numbers cores)) (finish_write {p = p} cores w)
  unfolding finish_write with_core
  finish_write-Numbered cores w =
      with_core-Numbered cores w.core _ (finish_txenable-Is w.txd_addr w.txd_cur)

  step_keeps_numbers : {s t : System p} → Step s t → numbers t.cores ≡ numbers s.cores
  step_keeps_numbers (bus_read addr value held h i run e) = rw e refl
  step_keeps_numbers {s} (bus_write addr value w cores h i run e) =
      rw e ((begin_write-Numbered s.cores addr value).ensures s.host h (w, cores) run)
  step_keeps_numbers (sleep w b e) = rw e refl
  step_keeps_numbers (spurious w b e) = rw e refl
  step_keeps_numbers {s} (resume w cores h b free run e) =
      rw e ((finish_write-Numbered s.cores w).ensures s.host h cores run)
  step_keeps_numbers {s} (receive r h run e) =
      rw e ((rxthread_round-Numbered s.rx s.cores).ensures s.host h r run)
  step_keeps_numbers (external spwq devq memory e) = rw e refl

-- In every state that the threads and the external device can get to from the initialisation, the four
-- cores have the numbers 0, 1, 2 and 3, in this order.
pub cores_keep_numbers :
    {p : Platform} (rx : RxThread) (h : Host p) {s : System p}
    → Reach (start rx h) s
    → numbers s.cores ≡ 0 ∷ (1 ∷ (2 ∷ (3 ∷ [])))
unfolding start init_cores init_core zeroed_device
cores_keep_numbers rx h here = refl
cores_keep_numbers rx h (next before step) =
    step_keeps_numbers step ∙ cores_keep_numbers rx h before
