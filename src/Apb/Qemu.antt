-- ===== src/Apb/Qemu.antt =====
-- grspw/grlib_apbgrspw.c: what the device asks of QEMU: its type and class, its interrupt lines, its
-- character devices and its memory region.
pub mod Laws
pub mod Registration
pub mod Sample
mod Tests
use Prim.Native.String.{String}
use qemu_spacewire.Base.{ℕ, suc, Bool, List, [], ◌∷◌, Option, some}
use qemu_spacewire.Host.{Platform, M, Outcome, done, fatal, fault}
use qemu_spacewire.Log.{Files, loggrspw_init}
use qemu_spacewire.Mq.Lifecycle.{Posix, Process}
use qemu_spacewire.Com.{Device}
use qemu_spacewire.Core.Init.{coregrspw_init}
use qemu_spacewire.Apb.{WriteState, ReadState, region_size, init_core, apb_read, begin_write}

-- The interrupts that are made into lines: `core[i].device.irq` and `irq` of the device.
pub data Irq : Type 0 where
  core_irq : ℕ → Irq
  apb_irq : Irq

pub data Endianness : Type 0 where
  device_native_endian : Endianness

-- `MemoryRegionOps`, of a device whose write gives a `W` and the devices of the cores. A read is
-- given whether txthread_mutex is owned.
pub record MemoryRegionOps (p : Platform) (W : Type 0) : Type 0 where
  pub write : List Device → ℕ → ℕ → M p (W × List Device)
  pub read : Bool → List Device → ℕ → M p ReadState
  pub endianness : Endianness

-- The three handlers of a character device, on the devices of the cores.
pub record ChrHandlers : Type 0 where
  pub can_receive : List Device → ℕ
  pub receive : List Device → List ℕ → List Device
  pub event : List Device → ℕ → List Device

-- The calls of QEMU and glib, on the state that they keep of the device.
pub record Qemu (p : Platform) (W : Type 0) : Type 1 where
  pub State : Type 0
  pub Chr : Type 0
  pub sysbus_init_irq : State → Irq → State
  pub g_malloc0 : State → Chr × State
  pub qemu_chr_add_handlers : State → Chr → ChrHandlers → State
  pub memory_region_init_io : State → MemoryRegionOps p W → String → ℕ → State
  pub sysbus_init_mmio : State → State

unfoldable pub apbgrspw_can_receive : List Device → ℕ
apbgrspw_can_receive opaque = 0

unfoldable pub apbgrspw_receive : List Device → List ℕ → List Device
apbgrspw_receive opaque bytes = opaque

unfoldable pub apbgrspw_event : List Device → ℕ → List Device
apbgrspw_event opaque event = opaque

-- The handlers that are given to qemu_chr_add_handlers.
abbrev pub apbgrspw_handlers : ChrHandlers
apbgrspw_handlers = record {
  can_receive = apbgrspw_can_receive;
  receive = apbgrspw_receive;
  event = apbgrspw_event;
}

-- The write stops where it must wait for the acknowledgement.
abbrev pub apbgrspw_ops : {p : Platform} → MemoryRegionOps p WriteState
apbgrspw_ops = record { write = begin_write; read = apb_read; endianness = device_native_endian }

-- `DEFINE_PROP_INT32` with its default, and `DEFINE_PROP_CHR` of a core.
pub data Property : Type 0 where
  prop_int32 : String → ℕ → Property
  prop_chr : String → ℕ → Property

abbrev pub apbgrspw_properties : List Property
apbgrspw_properties =
    prop_int32 "frequency" 40000000
    ∷ (prop_chr "chrdev0" 0
        ∷ (prop_chr "chrdev1" 1 ∷ (prop_chr "chrdev2" 2 ∷ (prop_chr "chrdev3" 3 ∷ []))))

-- TYPE_SYS_BUS_DEVICE.
pub data ParentType : Type 0 where
  type_sys_bus_device : ParentType

module _ {p : Platform} {W : Type 0} (q : Qemu p W) where
  -- `t_grspw_core` without its memory region, which nothing uses.
  pub record GrspwCore : Type 0 where
    pub chr : Option q.Chr
    pub device : Device

  -- `GRSPW`.
  pub record Grspw : Type 0 where
    pub core : List GrspwCore
    pub sys_freq_hz : ℕ
    pub nb_core : ℕ

  -- What grlib_apbgrspw_init leaves: the device, QEMU, the log files and the process.
  pub record Initialised (k : Posix) : Type 0 where
    pub grspw : Grspw
    pub qemu : q.State
    pub files : Files
    pub process : Process k

  -- What grlib_apbgrspw_class_init sets of `DeviceClass` and `SysBusDeviceClass`.
  pub record DeviceClass (k : Posix) : Type 0 where
    pub init : Grspw → q.State → Process k → Outcome (Initialised k)
    pub reset : Grspw → Grspw
    pub props : List Property

  -- `TypeInfo`, without the size of an instance.
  pub record TypeInfo (k : Posix) : Type 0 where
    pub name : String
    pub parent : ParentType
    pub class_init : DeviceClass k → DeviceClass k

module _ {p : Platform} (q : Qemu p WriteState) where
  -- One round of the loop of grlib_apbgrspw_init.
  unfoldable pub connect_core : ℕ → GrspwCore q → q.State → GrspwCore q × q.State
  connect_core grspw_id core s =
      let made = q.g_malloc0 (q.sysbus_init_irq s (core_irq grspw_id)) in
      (
        record { chr = some made.0; device = init_core grspw_id core.device },
        q.qemu_chr_add_handlers made.1 made.0 apbgrspw_handlers,
      )

  -- The loop, from core `grspw_id` on.
  unfoldable pub connect_cores : ℕ → List (GrspwCore q) → q.State → List (GrspwCore q) × q.State
  connect_cores grspw_id [] s = ([], s)
  connect_cores grspw_id (c ∷ cores) s =
      let first = connect_core grspw_id c s in
      let rest = connect_cores (suc grspw_id) cores first.1 in (first.0 ∷ rest.0, rest.1)

  -- The calls after the loop, up to grlib_coregrspw_init.
  unfoldable pub map_registers : q.State → q.State
  map_registers s =
      q.sysbus_init_mmio
        (q.memory_region_init_io (q.sysbus_init_irq s apb_irq) apbgrspw_ops "grspw" region_size)

  -- `opens` tells which log files can be opened.
  unfoldable pub apbgrspw_init :
      {k : Posix}
      → (ℕ → Bool)
      → (k.State → Option k.State)
      → Grspw q
      → q.State
      → Process k
      → Outcome (Initialised q k)
  apbgrspw_init opens pthread_create grspw s process =
      let connected = connect_cores 0 grspw.core s in
      elim (coregrspw_init pthread_create process) [
        | done process' ↦ done (record {
          grspw = record grspw { core = connected.0 };
          qemu = map_registers connected.1;
          files = loggrspw_init opens;
          process = process';
        })
        | fatal ↦ fatal
        | fault ↦ fault
      ]

  unfoldable pub apbgrspw_reset : Grspw q → Grspw q
  apbgrspw_reset grspw = grspw

  unfoldable pub apbgrspw_class_init :
      {k : Posix} → (ℕ → Bool) → (k.State → Option k.State) → DeviceClass q k → DeviceClass q k
  apbgrspw_class_init opens pthread_create class = record class {
    init = apbgrspw_init opens pthread_create;
    reset = apbgrspw_reset;
    props = apbgrspw_properties;
  }

  -- `type_register_static` is a call of QEMU on its table of types.
  unfoldable pub register_types :
      {k : Posix} {Types : Type 0}
      → (Types → TypeInfo q k → Types)
      → (ℕ → Bool)
      → (k.State → Option k.State)
      → Types
      → Types
  register_types type_register_static opens pthread_create types =
      type_register_static types (record {
        name = "grlib,grspw";
        parent = type_sys_bus_device;
        class_init = apbgrspw_class_init opens pthread_create;
      })
