-- ===== src/Apb.antt =====
-- grspw/grlib_apbgrspw.c: the access of the guest to the four cores through the APB bus.
pub mod Valid
pub mod Decode
pub mod Access
pub mod Qemu
mod Tests
use qemu_spacewire.Base.{
  ℕ, zero, suc, ◌/◌, ◌^◌, bit_and, Bool, true, false, none, some, List, [], ◌∷◌, get_elem?, set,
  ◌==◌, if◌then◌else◌,
}
use qemu_spacewire.Host.{Platform, M, pure, ◌>>=◌, or_fault}
use qemu_spacewire.Util.Word.{u32}
use qemu_spacewire.Reg.{
  Registers, RegOffset, reset_registers, write_registers, read_registers, e_ctr, e_str, e_ndr,
  e_clk, e_key, e_tim, e_tdr, e_chn, e_rxl, e_txd, e_rxd, other,
}
use qemu_spacewire.Core.{locktxsem, unlocktxsem}
use qemu_spacewire.Com.{Device, TxState, waiting, stopped, begin_txenable, finish_txenable}

abbrev pub grspw_reg_size : ℕ
grspw_reg_size = 0xff

-- The number of bytes of the memory region that grlib_apbgrspw_init maps, `GRSPW_REG_SIZE *
-- e_grspw_corenb`.
abbrev pub region_size : ℕ
region_size = 0x3fc

-- GRSPW_GET_COREID.
unfoldable pub core_id : ℕ → ℕ
core_id addr = bit_and (addr / 2 ^ 8) 0x3

-- A number as a value of the enumeration.
unfoldable pub to_offset : ℕ → RegOffset
to_offset n =
    if n == 0x00
    then e_ctr
    else if n == 0x04
    then e_str
    else if n == 0x08
    then e_ndr
    else if n == 0x0c
    then e_clk
    else if n == 0x10
    then e_key
    else if n == 0x14
    then e_tim
    else if n == 0x18
    then e_tdr
    else if n == 0x20
    then e_chn
    else if n == 0x24
    then e_rxl
    else if n == 0x28
    then e_txd
    else if n == 0x2c
    then e_rxd
    else other n

-- GRSPW_GET_REGOFFSET.
unfoldable pub reg_offset : ℕ → RegOffset
unfolding to_offset
reg_offset addr = to_offset (bit_and addr grspw_reg_size)

-- One round of the loop of grlib_apbgrspw_init, on a core.
unfoldable pub init_core : ℕ → Device → Device
init_core grspw_id d = record d {
  grspw_id = grspw_id;
  grspw_reg = reset_registers grspw_id d.grspw_reg;
}

-- The loop, from core `grspw_id` on.
unfoldable pub init_cores : ℕ → List Device → List Device
init_cores grspw_id [] = []
init_cores grspw_id (d ∷ cores) = init_core grspw_id d ∷ init_cores (suc grspw_id) cores

-- Where grlib_apbgrspw_write is when it waits in grlib_comgrspw_txenable: the core and the local
-- variables `txd_addr` and `txd_cur`.
pub record Pending : Type 0 where
  pub core : ℕ
  pub txd_addr : ℕ
  pub txd_cur : ℕ

pub data WriteState : Type 0 where
  written : WriteState
  must_wait : Pending → WriteState

-- From the state of the transmission.
unfoldable pub write_state : ℕ → TxState → WriteState
write_state core stopped = written
write_state core (waiting txd_addr txd_cur) =
    must_wait (record { core = core; txd_addr = txd_addr; txd_cur = txd_cur })

-- How grlib_apbgrspw_read gets to its wait for the mutex, which nothing ends, or to its end, with the
-- value and whether the mutex is then owned.
pub data ReadState : Type 0 where
  blocked : ReadState
  returned : ℕ → Bool → ReadState

module _ {p : Platform} where
  -- grlib_apbgrspw_read, given whether txthread_mutex is owned.
  unfoldable pub apb_read : Bool → List Device → ℕ → M p ReadState
  apb_read mutex_held cores addr = or_fault (get_elem? cores (core_id addr)) >>= λ d.
      elim (locktxsem mutex_held) [
        | none ↦ pure blocked
        | some held ↦ read_registers (core_id addr) d.grspw_reg (reg_offset addr) >>= λ value.
            pure (returned value (unlocktxsem held))
      ]

  -- grlib_apbgrspw_write up to the wait for the acknowledgement, or to its end.
  unfoldable pub begin_write : List Device → ℕ → ℕ → M p (WriteState × List Device)
  begin_write cores addr value = do
    d ← or_fault (get_elem? cores (core_id addr))
    r ← write_registers (core_id addr) d.grspw_reg (reg_offset addr) (u32 value)
    begun ← begin_txenable (record d { grspw_reg = r })
    pure (write_state (core_id addr) begun.0, set cores (core_id addr) begun.1)

  -- From the wait on.
  unfoldable pub finish_write : List Device → Pending → M p (List Device)
  finish_write cores w = do
    d ← or_fault (get_elem? cores w.core)
    d' ← finish_txenable w.txd_addr w.txd_cur d
    pure (set cores w.core d')
