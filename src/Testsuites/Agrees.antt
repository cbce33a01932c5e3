-- ===== src/Testsuites/Agrees.antt =====
-- The test device and the device: where they do the same.
use qemu_spacewire.Base.{
  ℕ, suc, ◌≡◌, refl, ap, arith, Bool, true, false, List, [], ◌∷◌, Option-cases, inl, inr, some,
  get_elem?,
}
use qemu_spacewire.Host.{Platform, Host, Outcome, done, fatal, fault, ◌>>=◌}
use qemu_spacewire.Util.Word.{u32}
use qemu_spacewire.Reg.{Registers, write_registers}
use qemu_spacewire.Com.{Device, begin_txenable, stopped}
use qemu_spacewire.Core.{txwakeup, locktxsem, unlocktxsem}
use qemu_spacewire.Reg.{read_registers}
use qemu_spacewire.Apb.{
  returned, blocked, core_id, reg_offset, begin_write, written, write_state, init_core, init_cores,
  apb_read,
}
use qemu_spacewire.Testsuites.{test_init_core, test_init, test_write, test_read}

pub test_init-init_cores : (i : ℕ) (cores : List Device) → test_init i cores ≡ init_cores i cores
unfolding test_init init_cores init_core test_init_core
test_init-init_cores i [] = refl
test_init-init_cores i (d ∷ cores) =
    ap (λ xs. init_core i d ∷ xs) (test_init-init_cores (suc i) cores)

module _ {p : Platform} where
  begin_txenable_asleep :
      (d : Device) (r : Registers) (h : Host p)
      → txwakeup r ≡ false
      → begin_txenable (record d { grspw_reg = r }) h
        ≡ done ((stopped, record d { grspw_reg = r }), h)
  unfolding begin_txenable txwakeup
  begin_txenable_asleep d r h e = ground (arith, e)

  -- The write of a register, once the device is known.
  write_agrees :
      (cores cores' : List Device) (addr value : ℕ) (signals : Bool) (d : Device) (h h' : Host p)
      (o : Outcome (Registers × Host p))
      → get_elem? cores (core_id addr) ≡ some d
      → write_registers (core_id addr) d.grspw_reg (reg_offset addr) (u32 value) h ≡ o
      → test_write cores addr value h ≡ done ((signals, cores'), h')
      → signals ≡ false
      → begin_write cores addr value h ≡ done ((written, cores'), h')
  unfolding test_write begin_write write_state ◌>>=◌
  write_agrees cores cores' addr value signals d h h' fatal g w e s =
      absurd (ground (arith, g, w, e))
  write_agrees cores cores' addr value signals d h h' fault g w e s =
      absurd (ground (arith, g, w, e))
  write_agrees cores cores' addr value signals d h h' (done (r, h₁)) g w e s =
      let a : (txwakeup r ≡ false) = ground (arith, g, w, e, s) in
      let t = begin_txenable_asleep d r h₁ a in ground (arith, g, w, e, t)

-- The test device and the device differ in the mutex. What a read of the test device gives, the read
-- of the device gives too, with the same entry in the log and the mutex given back, where the mutex
-- is free; where it is owned, the read of the device blocks. A write of the test device that leaves
-- the transmitter of its core off (it does not signal the transmit thread) does to the cores, the
-- guest and the log exactly what the write of the device does, which then ends without a wait.
pub test_device_agrees :
    {p : Platform} (cores cores' read_cores : List Device) (addr value read_addr read : ℕ)
    (h h' g g' : Host p)
    → test_write cores addr value h ≡ done ((false, cores'), h')
    → test_read read_cores read_addr g ≡ done (read, g')
    → (begin_write cores addr value h ≡ done ((written, cores'), h'))
      × (apb_read false read_cores read_addr g ≡ done (returned read false, g'))
      × (apb_read true read_cores read_addr g ≡ done (blocked, g))
unfolding test_read apb_read read_registers locktxsem unlocktxsem test_write ◌>>=◌
test_device_agrees cores cores' read_cores addr value read_addr read h h' g g' e r = (
  elim (Option-cases (get_elem? cores (core_id addr))) [
    | inl n ↦ absurd (ground (arith, n, e))
    | inr (d, g) ↦ write_agrees cores cores' addr value false d h h' _ g refl e refl
  ],
  elim (Option-cases (get_elem? read_cores (core_id read_addr))) [
    | inl n ↦ absurd (ground (arith, n, r))
    | inr (d, g) ↦ ground (arith, r, g)
  ],
  elim (Option-cases (get_elem? read_cores (core_id read_addr))) [
    | inl n ↦ absurd (ground (arith, n, r))
    | inr (d, g) ↦ ground (arith, g)
  ],
)
