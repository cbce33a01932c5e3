-- ===== src/Testsuites.antt =====
-- grspw/testsuites/grlib_grspwtest0.c: the device of the first test, whose write wakes the transmit
-- thread in place of transmitting.
pub mod Agrees
pub mod Qemu
pub mod Registration
mod Tests
use qemu_spacewire.Base.{ℕ, suc, Bool, List, [], ◌∷◌, get_elem?, set}
use qemu_spacewire.Host.{Platform, M, pure, ◌>>=◌, or_fault}
use qemu_spacewire.Util.Word.{u32}
use qemu_spacewire.Reg.{reset_registers, read_registers, write_registers}
use qemu_spacewire.Com.{Device}
use qemu_spacewire.Core.{txwakeup}
use qemu_spacewire.Apb.{core_id, reg_offset}

-- What a round of the loop of grlib_apbgrspw_init does to the device of a core.
unfoldable pub test_init_core : ℕ → Device → Device
test_init_core grspw_id d = record d {
  grspw_id = grspw_id;
  grspw_reg = reset_registers grspw_id d.grspw_reg;
}

-- The loop on the devices, from core `grspw_id` on.
unfoldable pub test_init : ℕ → List Device → List Device
test_init grspw_id [] = []
test_init grspw_id (d ∷ cores) = test_init_core grspw_id d ∷ test_init (suc grspw_id) cores

module _ {p : Platform} where
  -- grlib_apbgrspw_read, which takes no mutex.
  unfoldable pub test_read : List Device → ℕ → M p ℕ
  test_read cores addr = do
    d ← or_fault (get_elem? cores (core_id addr))
    read_registers (core_id addr) d.grspw_reg (reg_offset addr)

  -- grlib_apbgrspw_write: whether it signals the transmit thread, and the devices.
  unfoldable pub test_write : List Device → ℕ → ℕ → M p (Bool × List Device)
  test_write cores addr value = do
    d ← or_fault (get_elem? cores (core_id addr))
    r ← write_registers (core_id addr) d.grspw_reg (reg_offset addr) (u32 value)
    pure (txwakeup r, set cores (core_id addr) (record d { grspw_reg = r }))
