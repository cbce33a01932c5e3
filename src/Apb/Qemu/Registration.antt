-- ===== src/Apb/Qemu/Registration.antt =====
-- What grlib_apbgrspw_init registers with QEMU.
use qemu_spacewire.Base.{
  ℕ, ◌≡◌, refl, sym, ap, ◌∙◌, arith, Bool, List, [], ◌∷◌, ◌++◌, length, Option,
}
use qemu_spacewire.Host.{Platform, done}
use qemu_spacewire.Log.{loggrspw_init}
use qemu_spacewire.Mq.Lifecycle.{Posix, Process}
use qemu_spacewire.Core.Init.{coregrspw_init}
use qemu_spacewire.Apb.{WriteState, region_size, init_cores}
use qemu_spacewire.Apb.Qemu.Laws.{
  Region, Seen, IsQemu, devices, AreNew, attached_to, mapped-see, Connects, IsLoop, loop-see,
}
use qemu_spacewire.Apb.Qemu.{
  core_irq, apb_irq, ChrHandlers, Qemu, apbgrspw_handlers, apbgrspw_ops, Grspw, Initialised,
  DeviceClass, TypeInfo, type_sys_bus_device, connect_core, connect_cores, map_registers,
  apbgrspw_init, apbgrspw_reset, apbgrspw_class_init, register_types,
}

-- A character device with the handlers of the device.
abbrev pub with_handlers : {A : Type 0} → A → List (A × ChrHandlers)
with_handlers c = (c, apbgrspw_handlers) ∷ []

-- The region of the registers.
abbrev pub registers_region : {p : Platform} → Region p WriteState
registers_region = record { ops = apbgrspw_ops; name = "grspw"; size = region_size }

module _ {p : Platform} {q : Qemu p WriteState} (see : q.State → Seen p WriteState q.Chr)
    (x : IsQemu q see) where
  connect_core-Connects : Connects see with_handlers (connect_core q) (connect_cores q)
  unfolding connect_core
  connect_core-Connects i c s =
      let s₁ = q.sysbus_init_irq s (core_irq i) in
      let made = q.g_malloc0 s₁ in
      let lined = x.inits_irq s (core_irq i) in
      let (allocated, new) = x.allocates s₁ in
      let attached = x.attaches made.1 made.0 apbgrspw_handlers in
      (made.0, rw (sym (ap (λ v. v.chrs) lined)) new, refl, cc (lined, allocated, attached))

  connect_cores-IsLoop : IsLoop see with_handlers (connect_core q) (connect_cores q)
  unfolding connect_cores
  connect_cores-IsLoop = (λ i s. refl, λ i c cores s. refl)

  -- From the registration of the type on: where its class is initialised and a device with four cores
  -- is made, and the queues and the receive thread can be made, the initialisation returns. The cores
  -- are reset and numbered from 0. Of a device that had no line and no region, interrupt line i < 4 is
  -- then that of core i and line 4 the device's own; region 0 is that of the registers, with the
  -- handlers of the bus. Each core has a character device that did not exist before, with the three
  -- handlers; one that a property `chrdev` had given is dropped. A reset of the device changes nothing.
  pub device_registers :
      {k : Posix} {Types : Type 0} (register : Types → TypeInfo q k → Types) (types : Types)
      (opens : ℕ → Bool) (pthread_create : k.State → Option k.State) (class : DeviceClass q k)
      (g : Grspw q) (s : q.State) (before after : Process k)
      → length g.core ≡ 4
      → (see s).lines ≡ []
      → (see s).mmio ≡ []
      → coregrspw_init pthread_create before ≡ done after
      → (info : TypeInfo q k) × (i : Initialised q k) × (made : List q.Chr) × (register_types q
            register opens pthread_create types
          ≡ register types info)
        × (info.name ≡ "grlib,grspw")
        × ((info.class_init class).init g s before ≡ done i)
        × (i.process ≡ after)
        × (devices i.grspw.core ≡ init_cores 0 (devices g.core))
        × ((see i.qemu).lines ≡ core_irq 0 ∷ core_irq 1 ∷ core_irq 2 ∷ core_irq 3 ∷ apb_irq ∷ [])
        × ((see i.qemu).mmio ≡ registers_region ∷ [])
        × AreNew (see s) i.grspw.core made
        × ((see i.qemu).attached ≡ (see s).attached ++ attached_to with_handlers made)
        × ((info.class_init class).reset i.grspw ≡ i.grspw)
  unfolding register_types map_registers apbgrspw_class_init apbgrspw_init apbgrspw_reset
  device_registers register types opens pthread_create class g s before after four no_lines no_mmio
        e =
      let (same, made, new, seen) =
        loop-see see with_handlers (connect_core q) (connect_cores q) connect_core-Connects
          connect_cores-IsLoop 0 g.core s in
      let mapped = mapped-see see x (connect_cores q 0 g.core s).1 apbgrspw_ops region_size in
      (
        record {
          name = "grlib,grspw";
          parent = type_sys_bus_device;
          class_init = apbgrspw_class_init q opens pthread_create;
        },
        record {
          grspw = record g { core = (connect_cores q 0 g.core s).0 };
          qemu = map_registers q (connect_cores q 0 g.core s).1;
          files = loggrspw_init opens;
          process = after;
        },
        made,
        refl,
        refl,
        ground (arith, e),
        refl,
        same,
        cc (mapped, seen, no_lines, four),
        cc (mapped, seen, no_mmio),
        new,
        ap (λ v. v.attached) mapped ∙ ap (λ v. v.attached) seen,
        refl,
      )
