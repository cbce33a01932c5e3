-- ===== src/Apb/Valid.antt =====
-- The bus access leaves valid devices.
use qemu_spacewire.Base.{ℕ, ◌<◌, arith, List, get_elem?, All-get_elem?, get_elem?-some, index_lt}
use qemu_spacewire.Host.{Platform}
use qemu_spacewire.Host.Always.{Always, Always-pure, Always-bind, Always-or_fault}
use qemu_spacewire.Host.Ensures.{Ensures, Ensures-pure, Ensures-bind, Ensures-or_fault}
use qemu_spacewire.Util.Word.{u32}
use qemu_spacewire.Util.Ram.{IsSized}
use qemu_spacewire.Reg.Valid.{IsValid}
use qemu_spacewire.Reg.Valid.Writes.{write_registers-IsValid}
use qemu_spacewire.Com.{Device, TxState, waiting, stopped}
use qemu_spacewire.Com.Valid.{IsValidDevice}
use qemu_spacewire.Com.Begin.{
  IsWithin, begin_txenable-BeginsWell, finish_txenable-IsValid, with_registers,
}
use qemu_spacewire.Core.Valid.{IsValidCores, set-IsValidCores}
use qemu_spacewire.Apb.{
  core_id, reg_offset, begin_write, finish_write, Pending, WriteState, written, must_wait,
  write_state,
}

-- A pending write is of one of the four cores, and of a descriptor below the last one.
pub record IsValidPending (w : Pending) : Type 0 where
  pub core_lt : w.core < 4
  pub cur_lt : w.txd_cur < 63

abbrev pub IsValidWrite : WriteState → Type 0
IsValidWrite written = Unit {0}
IsValidWrite (must_wait w) = IsValidPending w

write_state-IsValid :
    (core : ℕ) (t : TxState) → core < 4 → IsWithin t → IsValidWrite (write_state core t)
unfolding write_state
write_state-IsValid core (waiting a c) lt w = record { core_lt = lt; cur_lt = w }
write_state-IsValid core stopped lt w = tt

module _ {p : Platform} where
  pub begin_write-IsValid :
      (cores : List Device) (addr value : ℕ)
      → IsSized p
      → IsValidCores cores
      → Ensures
          (λ (r : WriteState × List Device). IsValidWrite r.0 × IsValidCores r.1)
          (begin_write {p = p} cores addr value)
  unfolding begin_write
  begin_write-IsValid cores addr value m v =
      Ensures-bind {Q = λ (d : Device). IsValidDevice d × (core_id addr < 4)}
        (Ensures-or_fault (get_elem? cores (core_id addr)) λ d e. (
          All-get_elem? IsValidDevice cores (core_id addr) d v.all_valid e,
          omega (arith, v.count, index_lt cores (core_id addr) d e),
        ))
        λ d (w, lt).
          Ensures-bind {Q = IsValid}
            (record {
              ensures = λ h h' r e.
                  write_registers-IsValid (core_id addr) d.grspw_reg (u32 value) (reg_offset addr) h
                    w.registers_valid e;
            })
            λ r rv.
              Ensures-bind (begin_txenable-BeginsWell _ m (with_registers d r w rv)) λ begun (t, b).
                Ensures-pure _ (
                  write_state-IsValid (core_id addr) begun.0 lt t,
                  set-IsValidCores cores _ begun.1 v b,
                )

  pub finish_write-IsValid :
      (cores : List Device) (w : Pending)
      → IsValidCores cores
      → IsValidPending w
      → Always IsValidCores (finish_write {p = p} cores w)
  unfolding finish_write
  finish_write-IsValid cores w v f =
      let (d, e) = get_elem?-some cores w.core (omega (arith, v.count, f.core_lt)) in
      Always-bind {Q = IsValidDevice}
        (Always-or_fault (d, e, All-get_elem? IsValidDevice cores w.core d v.all_valid e))
        λ c cv.
          Always-bind (finish_txenable-IsValid w.txd_addr w.txd_cur c cv f.cur_lt)
            λ c' cv'. Always-pure _ (set-IsValidCores cores w.core c' v cv')
