-- ===== src/Com/Time.antt =====
-- grlib_comgrspw_rxtimecode: a time code from the external device.
use qemu_spacewire.Base.{
  ℕ, ◌≤◌, ◌<◌, max, Bool, ◌&&◌, ◌||◌, List, ◌∷◌, ◌≡◌, refl, arith, ltb, if◌then◌else◌, ◌==◌,
  Bool-cases, inl, inr,
}
use qemu_spacewire.Base.Bits.{bit, flag, bit-flag}
use qemu_spacewire.Host.{Platform, Host, done, ◌>>=◌}
use qemu_spacewire.Util.Mask.{setbit}
use qemu_spacewire.Util.Mask.Bits.{bit-setbit, checkbit-flag}
use qemu_spacewire.Com.{Device, rxtimecode, qemu_irq_pulse}

-- The device and the pulsed interrupts after a time code.
abbrev pub ticked_out : Device → ℕ → Device
ticked_out d timecode = record d {
  grspw_reg = record d.grspw_reg { tim = timecode; str = setbit d.grspw_reg.str (flag 0) };
}

abbrev pub pulsed_if : Bool → ℕ → List ℕ → List ℕ
pulsed_if c line pulses = if c then line ∷ pulses else pulses

module _ {p : Platform} (d : Device) (timecode : ℕ) (h : Host p) where
  rxtimecode_new :
      d.grspw_reg.tim < timecode
      → rxtimecode d timecode h
        ≡ done (
          ticked_out d timecode,
          record h { irq_pulses = pulsed_if (bit d.grspw_reg.ctr 8) d.grspw_id h.irq_pulses },
        )
  unfolding rxtimecode qemu_irq_pulse ◌>>=◌
  rxtimecode_new lt = ground (arith, lt, checkbit-flag d.grspw_reg.ctr 8)

  rxtimecode_old : timecode ≤ d.grspw_reg.tim → rxtimecode d timecode h ≡ done (d, h)
  unfolding rxtimecode
  rxtimecode_old le = ground (arith, le)

-- A time code always ends with the greater of its value and that of SPWTIM in SPWTIM. Where it is
-- greater than SPWTIM was, the bit TO is set and the interrupt of the core is pulsed if TQ is set;
-- where it is not, no bit of SPWSTR changes and no interrupt is pulsed.
pub rxtimecode_lem :
    {p : Platform} (d : Device) (timecode : ℕ) (h : Host p)
    → (d' : Device) × (h' : Host p) × (rxtimecode d timecode h ≡ done (d', h'))
      × (d'.grspw_reg.tim ≡ max d.grspw_reg.tim timecode)
      × ((i : ℕ)
          → bit d'.grspw_reg.str i
            ≡ bit d.grspw_reg.str i || (ltb d.grspw_reg.tim timecode && (i == 0)))
      × (h'.irq_pulses
          ≡ pulsed_if
              (ltb d.grspw_reg.tim timecode && bit d.grspw_reg.ctr 8)
              d.grspw_id
              h.irq_pulses)
rxtimecode_lem d timecode h = elim (Bool-cases (ltb d.grspw_reg.tim timecode)) [
  | inl e ↦ (
    _,
    _,
    rxtimecode_new d timecode h (ground (arith, e)),
    ground (arith, e),
    λ i. ground (arith, e, bit-setbit d.grspw_reg.str (flag 0) i, bit-flag 0 i),
    rw e refl,
  )
  | inr e ↦ (
    _,
    _,
    rxtimecode_old d timecode h (ground (arith, e)),
    ground (arith, e),
    λ i. ground (arith, e),
    rw e refl,
  )
]
