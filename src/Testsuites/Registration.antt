-- ===== src/Testsuites/Registration.antt =====
-- grspw/testsuites/grlib_grspwtest0.c: what the test device registers with QEMU.
use mathlib.Core.List.{append-nil}
use qemu_spacewire.Base.{ℕ, ◌≡◌, refl, sym, ap, arith, Bool, List, [], ◌∷◌, length, Option}
use qemu_spacewire.Host.{Platform, done}
use qemu_spacewire.Log.{loggrspw_init}
use qemu_spacewire.Mq.Lifecycle.{Posix, Process}
use qemu_spacewire.Core.Init.{coregrspw_init}
use qemu_spacewire.Apb.{region_size, init_core, init_cores}
use qemu_spacewire.Apb.Qemu.Laws.{
  Region, Seen, IsQemu, devices, AreNew, attached_to, mapped-see, Connects, IsLoop, loop-see,
}
use qemu_spacewire.Apb.Qemu.{
  core_irq, apb_irq, ChrHandlers, Qemu, Grspw, Initialised, DeviceClass, TypeInfo,
  type_sys_bus_device,
}
use qemu_spacewire.Testsuites.{test_init_core}
use qemu_spacewire.Testsuites.Qemu.{
  test_ops, test_connect_core, test_connect_cores, test_map_registers, test_device_init, test_reset,
  test_class_init, test_register_types,
}

-- The test device attaches nothing to a character device.
abbrev no_handlers : {A : Type 0} → A → List (A × ChrHandlers)
no_handlers c = []

no-attached : {A : Type 0} (made : List A) → attached_to (no_handlers {A = A}) made ≡ []
no-attached [] = refl
no-attached (c ∷ made) = no-attached made

-- The region of the registers.
abbrev pub test_region : {p : Platform} → Region p Bool
test_region = record { ops = test_ops; name = "grspw"; size = region_size }

module _ {p : Platform} {q : Qemu p Bool} (see : q.State → Seen p Bool q.Chr)
    (x : IsQemu q see) where
  test_connect_core-Connects : Connects see no_handlers (test_connect_core q) (test_connect_cores q)
  unfolding test_connect_core test_init_core init_core
  test_connect_core-Connects i c s =
      let s₁ = q.sysbus_init_irq s (core_irq i) in
      let lined = x.inits_irq s (core_irq i) in
      let (allocated, new) = x.allocates s₁ in
      (
        (q.g_malloc0 s₁).0,
        rw (sym (ap (λ v. v.chrs) lined)) new,
        refl,
        cc (lined, allocated, append-nil (see s).attached),
      )

  test_connect_cores-IsLoop : IsLoop see no_handlers (test_connect_core q) (test_connect_cores q)
  unfolding test_connect_cores
  test_connect_cores-IsLoop = (λ i s. refl, λ i c cores s. refl)

  -- From the registration of the type on: the initialisation of the test device, with four cores, does
  -- to the cores what that of the device does, and asks for the same interrupt lines and for one region
  -- of the same size, with the handlers of the test device. Each core has a new character device, and no
  -- handler is attached to any. A reset changes nothing.
  pub test_device_registers :
      {k : Posix} {Types : Type 0} (register : Types → TypeInfo q k → Types) (types : Types)
      (opens : ℕ → Bool) (pthread_create : k.State → Option k.State) (class : DeviceClass q k)
      (g : Grspw q) (s : q.State) (before after : Process k)
      → length g.core ≡ 4
      → (see s).lines ≡ []
      → (see s).mmio ≡ []
      → coregrspw_init pthread_create before ≡ done after
      → (info : TypeInfo q k) × (i : Initialised q k) × (made : List q.Chr) × (test_register_types q
            register opens pthread_create types
          ≡ register types info)
        × (info.name ≡ "grlib,grspw")
        × ((info.class_init class).init g s before ≡ done i)
        × (i.process ≡ after)
        × (devices i.grspw.core ≡ init_cores 0 (devices g.core))
        × ((see i.qemu).lines ≡ core_irq 0 ∷ core_irq 1 ∷ core_irq 2 ∷ core_irq 3 ∷ apb_irq ∷ [])
        × ((see i.qemu).mmio ≡ test_region ∷ [])
        × AreNew (see s) i.grspw.core made
        × ((see i.qemu).attached ≡ (see s).attached)
        × ((info.class_init class).reset i.grspw ≡ i.grspw)
  unfolding test_register_types test_map_registers test_class_init test_device_init test_reset
  test_device_registers register types opens pthread_create class g s before after four no_lines
        no_mmio e =
      let (same, made, new, seen) =
        loop-see see no_handlers (test_connect_core q) (test_connect_cores q)
          test_connect_core-Connects test_connect_cores-IsLoop 0 g.core s in
      let mapped = mapped-see see x (test_connect_cores q 0 g.core s).1 test_ops region_size in
      (
        record {
          name = "grlib,grspw";
          parent = type_sys_bus_device;
          class_init = test_class_init q opens pthread_create;
        },
        record {
          grspw = record g { core = (test_connect_cores q 0 g.core s).0 };
          qemu = test_map_registers q (test_connect_cores q 0 g.core s).1;
          files = loggrspw_init opens;
          process = after;
        },
        made,
        refl,
        refl,
        ground (arith, e),
        refl,
        same,
        cc (mapped, seen, no_lines, four),
        cc (mapped, seen, no_mmio),
        new,
        cc (mapped, seen, no-attached made, append-nil (see s).attached),
        refl,
      )
