-- ===== src/Apb/Access.antt =====
-- What the guest reads and writes through the bus.
use qemu_spacewire.Reg.{other}
use qemu_spacewire.Base.{
  ℕ, ◌<◌, ◌≡◌, ◌≢◌, ap, arith, Bool, true, false, Bool-cases, Option-cases, inl, inr, List, ◌∷◌,
  get_elem?, index_lt, get_elem?-set_ne, get_elem?-set_self, set, some, bit_and,
}
use qemu_spacewire.Base.Bits.{bit}
use qemu_spacewire.Host.{Platform, Host, done, ◌>>=◌, trace_readreg, trace_writereg}
use qemu_spacewire.Host.Ensures.{Ensures, Ensures-pure, Ensures-bind, Ensures-Anything}
use qemu_spacewire.Util.Word.{u32}
use qemu_spacewire.Util.Mask.Bits.{checkbit-flag}
use qemu_spacewire.Reg.{
  RegOffset, select, store_register, offset_value, read_registers, e_ctr, e_chn,
}
use qemu_spacewire.Reg.Access.{
  plain_mask, plain_ne_ctr, write_registers_plain, select-store_register, select-store_register_ne,
}
use qemu_spacewire.Core.{locktxsem, unlocktxsem}
use qemu_spacewire.Com.{Device, stopped, begin_txenable}
use qemu_spacewire.Apb.{
  core_id, apb_read, begin_write, WriteState, written, write_state, other, locktxsem, returned,
  true, unlocktxsem, blocked,
}
use qemu_spacewire.Apb.Decode.{IsRegister, address, register_address}

module _ {p : Platform} where
  -- A read at the address of a register of a core, with the mutex free, gives the value of that
  -- register of that core and the mutex back, and changes nothing but the log.
  pub apb_read_register :
      (cores : List Device) (i : ℕ) (o : RegOffset) (d : Device) (h : Host p)
      → i < 4
      → IsRegister o
      → get_elem? cores i ≡ some d
      → apb_read false cores (address i o) h
        ≡ done (
          returned (select o d.grspw_reg) false,
          record h { log = trace_readreg i (offset_value o) (select o d.grspw_reg) ∷ h.log },
        )
  unfolding apb_read read_registers locktxsem unlocktxsem ◌>>=◌
  apb_read_register cores i o d h lt r e =
      let (c, k, _) = register_address i o lt r in rw (c, k) (ground (arith, e))

  -- With the mutex owned, the read blocks.
  pub apb_read_blocked :
      (cores : List Device) (addr : ℕ) (d : Device) (h : Host p)
      → get_elem? cores (core_id addr) ≡ some d
      → apb_read true cores addr h ≡ done (blocked, h)
  unfolding apb_read locktxsem ◌>>=◌
  apb_read_blocked cores addr d h e = ground (arith, e)

  -- A read that returns has found the mutex free, and leaves it free.
  pub apb_read-returned :
      (held after : Bool) (cores : List Device) (addr value : ℕ) (h h' : Host p)
      → apb_read held cores addr h ≡ done (returned value after, h')
      → (held ≡ false) × (after ≡ false)
  unfolding apb_read read_registers locktxsem unlocktxsem ◌>>=◌
  apb_read-returned held after cores addr value h h' e =
      elim (Option-cases (get_elem? cores (core_id addr))) [
        | inl n ↦ absurd (ground (arith, e, n))
        | inr (d, g) ↦ elim (Bool-cases held) [
          | inl t ↦ absurd (ground (arith, e, g, t))
          | inr f ↦ (f, ground (arith, e, g, f))
        ]
      ]

  -- A write through the bus, wherever it gets to its wait or its end, leaves the device of every core
  -- but the addressed one as it was.
  pub begin_write_other :
      (cores cores' : List Device) (addr value j : ℕ) (w : WriteState) (h h' : Host p)
      → begin_write cores addr value h ≡ done ((w, cores'), h')
      → core_id addr ≢ j
      → get_elem? cores' j ≡ get_elem? cores j
  unfolding begin_write
  begin_write_other cores cores' addr value j w h h' e ne =
      let total : Ensures (λ (r : WriteState × List Device). get_elem? r.1 j ≡ get_elem? cores j)
          (begin_write {p = p} cores addr value) =
        Ensures-bind (Ensures-Anything _) λ d _. Ensures-bind (Ensures-Anything _) λ r _.
          Ensures-bind (Ensures-Anything _)
            λ begun _. Ensures-pure _ (get_elem?-set_ne cores (core_id addr) j begun.1 ne) in
      total.ensures h h' (w, cores') e

  begin_txenable_off :
      (d : Device) (h : Host p)
      → bit d.grspw_reg.chn 0 ≡ false
      → begin_txenable d h ≡ done ((stopped, d), h)
  unfolding begin_txenable
  begin_txenable_off d h off = ground (arith, off, checkbit-flag d.grspw_reg.chn 0)

plain-IsRegister : (o : RegOffset) {mask : ℕ} → plain_mask o ≡ some mask → IsRegister o
plain-IsRegister (other n) e = ground arith
plain-IsRegister e_ctr e = tt
plain-IsRegister _ e = tt

plain_ne_chn : (o : RegOffset) {mask : ℕ} → plain_mask o ≡ some mask → e_chn ≢ o
plain_ne_chn o e q = cc (ap plain_mask q)

module _ {p : Platform} (cores : List Device) (i : ℕ) (o : RegOffset) (d : Device) (value : ℕ)
    (h : Host p) where
  -- The devices and the state after a write of a register that takes the value written.
  abbrev stored : Device
  stored = record d { grspw_reg = store_register o d.grspw_reg (u32 value) }

  abbrev after_write : Host p
  after_write = record h {
    log = trace_writereg i (offset_value o) (u32 value) (select o stored.grspw_reg) ∷ h.log;
  }

  stays_off :
      {mask : ℕ}
      → plain_mask o ≡ some mask
      → bit d.grspw_reg.chn 0 ≡ false
      → bit stored.grspw_reg.chn 0 ≡ false
  unfolding select
  stays_off plain off =
      rw (select-store_register_ne o e_chn d.grspw_reg (u32 value) (plain_ne_chn o plain)) off

  begin_write_plain :
      {mask : ℕ}
      → i < 4
      → plain_mask o ≡ some mask
      → get_elem? cores i ≡ some d
      → bit d.grspw_reg.chn 0 ≡ false
      → begin_write cores (address i o) value h ≡ done ((written, set cores i stored), after_write)
  unfolding begin_write write_state ◌>>=◌
  begin_write_plain lt plain e off =
      let (c, k, _) = register_address i o lt (plain-IsRegister o plain) in
      let w =
        write_registers_plain i d.grspw_reg (u32 value) h o
          (plain_ne_ctr i d.grspw_reg value h o plain) in
      let t = begin_txenable_off stored after_write (stays_off plain off) in
      rw (c, k) (ground (arith, e, w, t))

  -- Through the bus, with the transmitter of the core off: after a write of a register that takes the
  -- value written (NDR, CLK, KEY, TIM, TDR, RXL, TXD or RXD) a read at the same address returns the
  -- 32-bit value within the fields of the register, and both accesses are logged, where the mutex is
  -- free, as it is again then; where the mutex is owned the write is logged and the read blocks.
  pub bus_read-write_same :
      {mask : ℕ}
      → i < 4
      → plain_mask o ≡ some mask
      → get_elem? cores i ≡ some d
      → bit d.grspw_reg.chn 0 ≡ false
      → ((begin_write cores (address i o) value >>= λ r. apb_read false r.1 (address i o)) h
          ≡ done (
            returned (bit_and (u32 value) mask) false,
            record h {
              log =
                  trace_readreg i (offset_value o) (bit_and (u32 value) mask)
                  ∷ trace_writereg i (offset_value o) (u32 value) (bit_and (u32 value) mask)
                  ∷ h.log;
            },
          ))
        × ((begin_write cores (address i o) value >>= λ r. apb_read true r.1 (address i o)) h
            ≡ done (
              blocked,
              record h {
                log =
                    trace_writereg i (offset_value o) (u32 value) (bit_and (u32 value) mask)
                    ∷ h.log;
              },
            ))
  unfolding ◌>>=◌
  bus_read-write_same lt plain e off =
      let got = select-store_register o d.grspw_reg (u32 value) plain in
      let back = get_elem?-set_self cores i stored (index_lt cores i d e) in
      let is = plain-IsRegister o plain in
      let (c, _, _) = register_address i o lt is in
      let r = apb_read_register (set cores i stored) i o stored after_write lt is back in
      let stuck : apb_read true (set cores i stored) (address i o) after_write
          ≡ done (blocked, after_write) =
        apb_read_blocked (set cores i stored) (address i o) stored after_write (rw c back) in
      (
        ground (arith, begin_write_plain lt plain e off, r, got),
        ground (arith, begin_write_plain lt plain e off, stuck, got),
      )
