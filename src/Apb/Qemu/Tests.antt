-- ===== src/Apb/Qemu/Tests.antt =====
-- The registration at a concrete QEMU.
use qemu_spacewire.Base.{ℕ, ◌≡◌, refl, true, List, [], ◌∷◌, ◌++◌, some}
use qemu_spacewire.Host.{done}
use qemu_spacewire.Host.Sample.{sample}
use qemu_spacewire.Mq.Lifecycle.{open_spwq, open_devq, checked, ◌then◌, mqgrspw_init}
use qemu_spacewire.Mq.Lifecycle.Sample.{sample_calls, no_queues, unconnected, initialised}
use qemu_spacewire.Com.Sample.{device}
use qemu_spacewire.Core.Init.{coregrspw_init}
use qemu_spacewire.Apb.{WriteState, init_cores}
use qemu_spacewire.Apb.Qemu.{Initialised, TypeInfo, core_irq, apb_irq, register_types}
use qemu_spacewire.Apb.Qemu.Laws.{devices, AreNew, attached_to}
use qemu_spacewire.Apb.Qemu.Registration.{with_handlers, registers_region, device_registers}
use qemu_spacewire.Apb.Qemu.Sample.{
  sample_qemu, sample_qemu-IsQemu, unregistered, sample_grspw, sample_class,
}

device_registers_example :
    (info : TypeInfo (sample_qemu {p = sample} {W = WriteState}) sample_calls) × (i : Initialised
      sample_qemu sample_calls)
    × (made : List ℕ) × (register_types sample_qemu
          (λ types info. info ∷ types)
          (λ core. true)
          (λ s. some s)
          []
        ≡ info ∷ [])
    × (info.name ≡ "grlib,grspw")
    × ((info.class_init sample_class).init sample_grspw unregistered (unconnected no_queues)
        ≡ done i)
    × (i.process ≡ initialised)
    × (devices i.grspw.core ≡ init_cores 0 (device ∷ (device ∷ (device ∷ (device ∷ [])))))
    × (i.qemu.lines ≡ core_irq 0 ∷ core_irq 1 ∷ core_irq 2 ∷ core_irq 3 ∷ apb_irq ∷ [])
    × (i.qemu.mmio ≡ registers_region ∷ [])
    × AreNew unregistered i.grspw.core made
    × (i.qemu.attached ≡ [] ++ attached_to with_handlers made)
    × ((info.class_init sample_class).reset i.grspw ≡ i.grspw)
unfolding coregrspw_init mqgrspw_init open_spwq open_devq checked ◌then◌
device_registers_example =
    device_registers (λ v. v) sample_qemu-IsQemu (λ types info. info ∷ types) [] (λ core. true)
      (λ s. some s) sample_class sample_grspw unregistered (unconnected no_queues) initialised refl
      refl refl refl
