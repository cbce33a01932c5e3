-- ===== src/Core/Init.antt =====
-- grlib_coregrspw_init, and the peer that connects to its queues.
use Prim.Native.String.{String}
use qemu_spacewire.Base.{◌≡◌, ◌∙◌, arith, Option, none, some, Option-cases, inl, inr}
use qemu_spacewire.Host.{Outcome, done, fatal}
use qemu_spacewire.Mq.Lifecycle.{
  Posix, Process, o_wronly, o_rdonly, checked, ◌then◌, mqgrspw_init, mqgrspw_connect,
}
use qemu_spacewire.Mq.Lifecycle.Laws.{
  View, IsPosix, AreOpen, then-inversion, init_opens, connect_opens, connect_needs_init,
}

-- The queues, and then the receive thread, where `pthread_create` is what the call does to the system;
-- `none` is a result other than 0. The mutex and the conditions are the free mutex and the empty waits
-- that a System starts with.
unfoldable pub coregrspw_init :
    {k : Posix} → (k.State → Option k.State) → Process k → Outcome (Process k)
coregrspw_init pthread_create = mqgrspw_init then checked pthread_create

-- A new thread changes neither the queues nor the descriptors.
pub record KeepsQueues {k : Posix} (view : View k) (pthread_create : k.State → Option k.State)
    : Type 0 where
  pub keeps_queues :
      (s s' : k.State)
      → pthread_create s ≡ some s'
      → ((name : String) → view.queue_of s' name ≡ view.queue_of s name)
        × ((d : k.Descriptor) → view.refers s' d ≡ view.refers s d)

module _ {k : Posix} (view : View k) (x : IsPosix view) (pthread_create : k.State → Option k.State)
    (keeps : KeepsQueues view pthread_create) where
  thread-AreOpen :
      (p q : Process k)
      → checked pthread_create p ≡ done q
      → AreOpen view o_wronly o_rdonly p
      → AreOpen view o_wronly o_rdonly q
  unfolding checked
  thread-AreOpen p q e v = elim (Option-cases (pthread_create p.system)) [
    | inl n ↦ absurd (ground (arith, e, n))
    | inr (s, o) ↦
        let same : q ≡ record p { system = s } = ground (arith, e, o) in
        let (queues, descriptors) = keeps.keeps_queues p.system s o in
        rw same (record {
          spwq_refers = descriptors p.spwq ∙ v.spwq_refers;
          devq_refers = descriptors p.devq ∙ v.devq_refers;
          spwq_made = queues "/spwq" ∙ v.spwq_made;
          devq_made = queues "/devq" ∙ v.devq_made;
        })
  ]

  -- In a system that has neither queue, a process that calls grlib_mqgrspw_connect ends at once. If
  -- grlib_coregrspw_init returns there, and then grlib_mqgrspw_connect returns in another process, both
  -- queues exist with messages of at most C_MAXQ_SIZE bytes; the first process has the queue to the
  -- device open for writing and the other queue for reading, and the second one the other way round.
  pub init_then_connect :
      (p q r s : Process k)
      → view.queue_of p.system "/spwq" ≡ none
      → view.queue_of p.system "/devq" ≡ none
      → coregrspw_init pthread_create p ≡ done q
      → r.system ≡ q.system
      → mqgrspw_connect r ≡ done s
      → (mqgrspw_connect p ≡ fatal)
        × AreOpen view o_wronly o_rdonly (record q { system = s.system })
        × AreOpen view o_rdonly o_wronly s
  unfolding coregrspw_init
  init_then_connect p q r s no_spwq no_devq e same c =
      let (m, e₁, e₂) = then-inversion view x _ _ p q e in
      let v = thread-AreOpen m q e₂ (init_opens view x p m no_spwq no_devq e₁) in
      let (theirs, ours) = connect_opens view x q r s v same c in
      (connect_needs_init view x p no_devq, ours, theirs)
