-- ===== src/Com/Stale.antt =====
-- A write of SPWRXD does not reach `rxd_cur`, from which the selector in SPWRXD is made.
use qemu_spacewire.Base.{
  ℕ, zero, suc, ◌*◌, ◌≤◌, ◌<◌, ◌≡◌, refl, ◌∙◌, arith, true, List, ◌∷◌, length, Bool,
}
use qemu_spacewire.Base.Bits.{bit}
use qemu_spacewire.Host.{Platform, Host, done, ◌>>=◌, trace_writereg}
use qemu_spacewire.Util.Mask.{checkbit}
use qemu_spacewire.Util.Mask.Bits.{bit-deposit}
use qemu_spacewire.Util.Ram.{IsSized}
use qemu_spacewire.Util.Word.{u32}
use qemu_spacewire.Reg.{Registers, e_rxd, offset_value, select, store_register, write_registers}
use qemu_spacewire.Reg.Access.{write_registers_plain}
use qemu_spacewire.Reg.Valid.Writes.{write_registers-IsValid}
use qemu_spacewire.Com.{
  Device, RecvAtt, next_descriptor, received_registers, rxenable, c_spwtrw0_wr,
}
use qemu_spacewire.Com.Descriptor.{word}
use qemu_spacewire.Com.Begin.{with_registers}
use qemu_spacewire.Com.Filter.{is_addressed}
use qemu_spacewire.Com.Valid.{IsValidDevice}
use qemu_spacewire.Com.Store.{rxenable_stores, descriptor_at, ctrl_after, delivered}

-- The bits of SPWRXD that select a descriptor.
selects : (i : ℕ) → 3 ≤ i → i < 10 → bit 0x3f8 i ≡ true
unfolding bit
selects zero a b = absurd (omega arith)
selects (suc zero) a b = absurd (omega arith)
selects (suc (suc zero)) a b = absurd (omega arith)
selects (suc (suc (suc zero))) a b = refl
selects (suc (suc (suc (suc zero)))) a b = refl
selects (suc (suc (suc (suc (suc zero))))) a b = refl
selects (suc (suc (suc (suc (suc (suc zero)))))) a b = refl
selects (suc (suc (suc (suc (suc (suc (suc zero))))))) a b = refl
selects (suc (suc (suc (suc (suc (suc (suc (suc zero)))))))) a b = refl
selects (suc (suc (suc (suc (suc (suc (suc (suc (suc zero))))))))) a b = refl
selects (suc (suc (suc (suc (suc (suc (suc (suc (suc (suc i)))))))))) a b = absurd (omega arith)

-- The selector after a packet, where descriptor `cur` is the next.
selector :
    (r : Registers) (att : RecvAtt) (cur i : ℕ)
    → 3 ≤ i
    → i < 10
    → bit (received_registers r att cur).rxd i ≡ bit (u32 (cur * 8)) i
unfolding received_registers
selector r att cur i a b =
    bit-deposit r.rxd 0x3f8 (u32 (cur * 8)) i (omega arith) ∙ ground (arith, selects i a b)

-- The device after the guest has written SPWRXD.
abbrev pub rewritten : Device → ℕ → Device
rewritten d value = record d { grspw_reg = store_register e_rxd d.grspw_reg value }

-- The used descriptor is the last one of its table.
abbrev pub wraps : Device → List ℕ → ℕ → RecvAtt → Bool
wraps d descriptor len att = checkbit (ctrl_after d descriptor len att) c_spwtrw0_wr

module _ {p : Platform} (d : Device) (value : ℕ) (h : Host p) where
  abbrev traced : Host p
  traced = record h {
    log =
        trace_writereg d.grspw_id (offset_value e_rxd) value
          (select e_rxd (store_register e_rxd d.grspw_reg value))
        ∷ h.log;
  }

  written :
      write_registers d.grspw_id d.grspw_reg e_rxd value h
      ≡ done (store_register e_rxd d.grspw_reg value, traced)
  written = write_registers_plain d.grspw_id d.grspw_reg value h e_rxd (λ q. cc q)

  -- The guest writes SPWRXD, and a packet is delivered to the descriptor that the new value points at
  -- (on a valid device, with RD '1', a packet that addresses the core and an enabled descriptor there).
  -- The next descriptor, in the device and in the selector of SPWRXD, is nevertheless counted from the
  -- index from before the write, whatever descriptor the value written selects.
  pub rxd_write_keeps_index :
      (node_addr : ℕ) (rest : List ℕ) (len : ℕ) (att : RecvAtt)
      → IsSized p
      → IsValidDevice d
      → len ≤ length (node_addr ∷ rest)
      → is_addressed d node_addr ≡ true
      → bit d.grspw_reg.chn 11 ≡ true
      → bit (word 0 (descriptor_at (rewritten d value) h)) 25 ≡ true
      → (d' : Device) × (h' : Host p) × ((write_registers d.grspw_id d.grspw_reg e_rxd value
              >>= λ r. rxenable (record d { grspw_reg = r }) (node_addr ∷ rest) len att)
            h
          ≡ done (d', h'))
        × (d'.rxd_cur
            ≡ next_descriptor
                (wraps (rewritten d value) (descriptor_at (rewritten d value) h) len att)
                d.rxd_cur
                128)
        × ((i : ℕ) → 3 ≤ i → i < 10 → bit d'.grspw_reg.rxd i ≡ bit (u32 (d'.rxd_cur * 8)) i)
  unfolding store_register ◌>>=◌
  rxd_write_keeps_index node_addr rest len att m v b addressed rd en =
      let w : IsValidDevice (rewritten d value) =
        with_registers d (store_register e_rxd d.grspw_reg value) v (
          write_registers-IsValid d.grspw_id d.grspw_reg value e_rxd h v.registers_valid written) in
      let descriptor = descriptor_at (rewritten d value) h in
      let (front, xs, f, run, _) =
        rxenable_stores (rewritten d value) node_addr rest len att traced m w b addressed rd en in
      let d' = delivered (rewritten d value) descriptor len att xs in
      (
        d',
        _,
        ground (arith, written) ∙ run,
        refl,
        λ i lo hi. selector (rewritten d value).grspw_reg att d'.rxd_cur i lo hi,
      )
