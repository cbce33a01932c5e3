-- ===== src/Reg/Valid/Writes.antt =====
-- Every register write keeps the registers valid.
use qemu_spacewire.Base.{ℕ, true, false, ◌≡◌, refl, arith, Bool-cases, inl, inr}
use qemu_spacewire.Base.Bits.{bit, flag}
use qemu_spacewire.Base.Within.{Within-but, Within-not, Within-masked}
use qemu_spacewire.Host.{◌>>=◌, Platform, Host, done}
use qemu_spacewire.Host.Bind.{bind-done}
use qemu_spacewire.Util.Mask.Bits.{checkbit-flag}
use qemu_spacewire.Reg.{
  Registers, RegOffset, store_ctr, store_register, switch_write, write_registers, e_ctr, e_str,
  e_ndr, e_clk, e_key, e_tim, e_tdr, e_chn, e_rxl, e_txd, e_rxd, other,
}
use qemu_spacewire.Reg.Ctr.{written_ctr, bit-written_ctr, bit-store_ctr, write_ctr-returns}
use qemu_spacewire.Reg.Valid.{
  Holds, IsValid, reset_registers-IsValid, write_str-IsValid, write_chn-IsValid, stored-Holds,
  later_parts-Holds,
}

-- The two bits that clear themselves.
self_clear_bits :
    (grspw_id : ℕ) (r : Registers) (value : ℕ)
    → IsValid r
    → bit value 6 ≡ false
    → (bit (written_ctr grspw_id r value).ctr 6 ≡ false)
      × (bit (written_ctr grspw_id r value).ctr 4 ≡ false)
self_clear_bits grspw_id r value v rs =
    let six = Within-not r.ctr 0xe003_0f2f 6 v.ctr_fits (unfold bit in refl) in
    let four = Within-not r.ctr 0xe003_0f2f 4 v.ctr_fits (unfold bit in refl) in
    (
      ground (
        arith,
        bit-written_ctr grspw_id r value 6 (omega arith),
        bit-store_ctr grspw_id r value 6 (omega arith) rs,
      ),
      ground (
        arith,
        bit-written_ctr grspw_id r value 4 (omega arith),
        bit-store_ctr grspw_id r value 4 (omega arith) rs,
      ),
    )

-- Valid up to the bits that clear themselves, and without these.
Holds-but :
    (r : Registers) → Holds 0xe003_0f7f r → bit r.ctr 6 ≡ false → bit r.ctr 4 ≡ false → IsValid r
unfolding flag
Holds-but r v six four = assumption (
    Within-but r.ctr 0xe003_0f2f 0xe003_0f3f 4 refl
      (Within-but r.ctr 0xe003_0f3f 0xe003_0f7f 6 refl v.ctr_fits six) four)

written_ctr-IsValid :
    (grspw_id : ℕ) (r : Registers) (value : ℕ) → IsValid r → IsValid (written_ctr grspw_id r value)
written_ctr-IsValid grspw_id r value v = elim (Bool-cases (bit value 6)) [
  | inl rs ↦ unfold written_ctr in later_parts-Holds _ value _ (was_reset rs)
  | inr rs ↦
      let (six, four) = self_clear_bits grspw_id r value v rs in
      Holds-but (written_ctr grspw_id r value)
        (unfold written_ctr in later_parts-Holds _ value _ (stored-Holds grspw_id r value v rs)) six
        four
]
  where
    was_reset : bit value 6 ≡ true → IsValid (store_ctr grspw_id r value)
    was_reset rs =
        unfold store_ctr in rw (checkbit-flag value 6) (rw rs (reset_registers-IsValid grspw_id _))

store_register-IsValid :
    (offset : RegOffset) (r : Registers) (value : ℕ)
    → IsValid r
    → IsValid (store_register offset r value)
unfolding store_register
store_register-IsValid e_str r value v = write_str-IsValid r value v
store_register-IsValid e_chn r value v = write_chn-IsValid r value v
store_register-IsValid e_ndr r value v = assumption (Within-masked value 0xff)
store_register-IsValid e_clk r value v = assumption (Within-masked value 0xffff)
store_register-IsValid e_key r value v = assumption (Within-masked value 0xff)
store_register-IsValid e_tim r value v = assumption (Within-masked value 0xff)
store_register-IsValid e_tdr r value v = assumption (Within-masked value 0x3f_ffff)
store_register-IsValid e_rxl r value v = assumption (Within-masked value 0x1ff_fffc)
store_register-IsValid e_txd r value v = assumption (Within-masked value 0xffff_fff0)
store_register-IsValid e_rxd r value v = assumption (Within-masked value 0xffff_fff8)
store_register-IsValid e_ctr r value v = v
store_register-IsValid (other n) r value v = v

module _ {p : Platform} (grspw_id : ℕ) (r : Registers) (value : ℕ) where
  switch_write-IsValid :
      (offset : RegOffset) (h : Host p) {r' : Registers} {h' : Host p}
      → IsValid r
      → switch_write grspw_id r offset value h ≡ done (r', h')
      → IsValid r'
  unfolding switch_write
  switch_write-IsValid e_ctr h v e =
      rw (write_ctr-returns grspw_id r value h e) (written_ctr-IsValid grspw_id r value v)
  switch_write-IsValid offset h {r'} v e =
      let same : r' ≡ store_register offset r value = cc in
      rw same (store_register-IsValid offset r value v)

  -- A write of any register at any offset, with any value, that returns keeps the registers valid:
  -- no reserved bit is set, RS and TI of SPWCTR and AT of SPWCHN are '0', and every field keeps its
  -- width.
  pub write_registers-IsValid :
      (offset : RegOffset) (h : Host p) {r' : Registers} {h' : Host p}
      → IsValid r
      → write_registers grspw_id r offset value h ≡ done (r', h')
      → IsValid r'
  unfolding write_registers ◌>>=◌
  write_registers-IsValid offset h {r'} v e =
      let (written, h₁, first, rest) = bind-done (switch_write grspw_id r offset value) _ h e in
      let same : r' ≡ written = cc in rw same (switch_write-IsValid offset h v first)
