-- ===== src/Testsuites/Qemu.antt =====
-- grspw/testsuites/grlib_grspwtest0.c: what the test device asks of QEMU. Its character devices get no
-- handlers.
use qemu_spacewire.Base.{ℕ, suc, Bool, List, [], ◌∷◌, Option, some}
use qemu_spacewire.Host.{◌>>=◌, pure, Platform, Outcome, done, fatal, fault}
use qemu_spacewire.Log.{loggrspw_init}
use qemu_spacewire.Mq.Lifecycle.{Posix, Process}
use qemu_spacewire.Core.Init.{coregrspw_init}
use qemu_spacewire.Apb.{region_size}
use qemu_spacewire.Apb.Qemu.{
  core_irq, apb_irq, device_native_endian, MemoryRegionOps, Qemu, Property, prop_int32, prop_chr,
  type_sys_bus_device, GrspwCore, Grspw, Initialised, DeviceClass, TypeInfo,
}
use qemu_spacewire.Apb.{returned}
use qemu_spacewire.Testsuites.{test_init_core, test_read, test_write}

-- The write tells whether it signals the transmit thread; the read leaves the mutex as it is.
abbrev pub test_ops : {p : Platform} → MemoryRegionOps p Bool
test_ops = record {
  write = test_write;
  read =
      λ mutex_held cores addr. test_read cores addr >>= λ value. pure (returned value mutex_held);
  endianness = device_native_endian;
}

abbrev pub test_properties : List Property
test_properties =
    prop_int32 "frequency" 40000000
    ∷ (prop_chr "chrdev0" 0
        ∷ (prop_chr "chrdev1" 1 ∷ (prop_chr "chrdev2" 2 ∷ (prop_chr "chrdev3" 3 ∷ []))))

module _ {p : Platform} (q : Qemu p Bool) where
  -- One round of the loop of grlib_apbgrspw_init.
  unfoldable pub test_connect_core : ℕ → GrspwCore q → q.State → GrspwCore q × q.State
  test_connect_core grspw_id core s =
      let made = q.g_malloc0 (q.sysbus_init_irq s (core_irq grspw_id)) in
      (record { chr = some made.0; device = test_init_core grspw_id core.device }, made.1)

  -- The loop, from core `grspw_id` on.
  unfoldable pub test_connect_cores :
      ℕ → List (GrspwCore q) → q.State → List (GrspwCore q) × q.State
  test_connect_cores grspw_id [] s = ([], s)
  test_connect_cores grspw_id (c ∷ cores) s =
      let first = test_connect_core grspw_id c s in
      let rest = test_connect_cores (suc grspw_id) cores first.1 in (first.0 ∷ rest.0, rest.1)

  -- The calls after the loop, up to grlib_coregrspw_init.
  unfoldable pub test_map_registers : q.State → q.State
  test_map_registers s =
      q.sysbus_init_mmio
        (q.memory_region_init_io (q.sysbus_init_irq s apb_irq) test_ops "grspw" region_size)

  -- grlib_apbgrspw_init.
  unfoldable pub test_device_init :
      {k : Posix}
      → (ℕ → Bool)
      → (k.State → Option k.State)
      → Grspw q
      → q.State
      → Process k
      → Outcome (Initialised q k)
  test_device_init opens pthread_create grspw s process =
      let connected = test_connect_cores 0 grspw.core s in
      elim (coregrspw_init pthread_create process) [
        | done process' ↦ done (record {
          grspw = record grspw { core = connected.0 };
          qemu = test_map_registers connected.1;
          files = loggrspw_init opens;
          process = process';
        })
        | fatal ↦ fatal
        | fault ↦ fault
      ]

  -- grlib_apbgrspw_reset.
  unfoldable pub test_reset : Grspw q → Grspw q
  test_reset grspw = grspw

  -- grlib_apbgrspw_class_init.
  unfoldable pub test_class_init :
      {k : Posix} → (ℕ → Bool) → (k.State → Option k.State) → DeviceClass q k → DeviceClass q k
  test_class_init opens pthread_create class = record class {
    init = test_device_init opens pthread_create;
    reset = test_reset;
    props = test_properties;
  }

  -- grlib_apbgrspw_register_types.
  unfoldable pub test_register_types :
      {k : Posix} {Types : Type 0}
      → (Types → TypeInfo q k → Types)
      → (ℕ → Bool)
      → (k.State → Option k.State)
      → Types
      → Types
  test_register_types type_register_static opens pthread_create types =
      type_register_static types (record {
        name = "grlib,grspw";
        parent = type_sys_bus_device;
        class_init = test_class_init opens pthread_create;
      })
