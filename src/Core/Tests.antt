-- ===== src/Core/Tests.antt =====
-- The initialisation in a concrete system.
use qemu_spacewire.Base.{◌≡◌, ◌⊎◌, refl, arith, [], ◌∷◌, none, some}
use qemu_spacewire.Host.{done, fatal}
use qemu_spacewire.Mq.Lifecycle.{
  Process, attr, o_wronly, o_rdonly, open_spwq, open_devq, checked, ◌then◌, mqgrspw_init,
  mqgrspw_connect, devdestroy, spwdestroy,
}
use qemu_spacewire.Mq.Lifecycle.Laws.{AreOpen, destroy_removes}
use qemu_spacewire.Mq.Lifecycle.Sample.{
  Kernel, sample_calls, no_queues, sample_view, sample_calls-IsPosix, unconnected, both,
  initialised,
}
use qemu_spacewire.Core.Init.{coregrspw_init, init_then_connect}

abbrev connected : Kernel
connected = record both {
  opened =
      some ("/spwq", o_wronly)
      ∷ (some ("/devq", o_rdonly) ∷ (some ("/devq", o_wronly) ∷ (some ("/spwq", o_rdonly) ∷ [])));
}

abbrev peer : Process sample_calls
peer = record { spwq = 3; devq = 2; system = connected }

init_then_connect_example :
    (mqgrspw_connect (unconnected no_queues) ≡ fatal)
    × AreOpen sample_view o_wronly o_rdonly (record initialised { system = connected })
    × AreOpen sample_view o_rdonly o_wronly peer
unfolding coregrspw_init mqgrspw_init mqgrspw_connect open_spwq open_devq checked ◌then◌
init_then_connect_example =
    init_then_connect sample_view sample_calls-IsPosix (λ s. some s)
      (record { keeps_queues = λ s s' e. ground (arith, e) }) (unconnected no_queues) initialised
      (unconnected both) peer refl refl refl refl refl

initialised-AreOpen : AreOpen sample_view o_wronly o_rdonly initialised
initialised-AreOpen = record {
  spwq_refers = refl;
  devq_refers = refl;
  spwq_made = refl;
  devq_made = refl;
}

destroy_removes_example :
    ((q : Process sample_calls) × ((devdestroy then spwdestroy) initialised ≡ done q)
      × (q.system.queues "/spwq" ≡ none)
      × (q.system.queues "/devq" ≡ none))
    ⊎ ((s : Kernel) × ((devdestroy then spwdestroy) initialised ≡ fatal)
        × (sample_calls.mq_unlink s "/devq" ≡ none)
        × (s.queues "/devq" ≡ some attr))
    ⊎ ((s : Kernel) × ((devdestroy then spwdestroy) initialised ≡ fatal)
        × (sample_calls.mq_unlink s "/spwq" ≡ none)
        × (s.queues "/spwq" ≡ some attr)
        × (s.queues "/devq" ≡ none))
destroy_removes_example =
    destroy_removes sample_view sample_calls-IsPosix o_wronly o_rdonly initialised
      initialised-AreOpen
