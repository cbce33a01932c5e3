-- ===== src/Apb/Decode.antt =====
-- The addresses of the registers in the memory region of grlib_apbgrspw_init.
use qemu_spacewire.Base.{ℕ, zero, suc, ◌+◌, ◌*◌, ◌/◌, ◌^◌, ◌≤◌, ◌<◌, ◌≡◌, refl, arith}
use qemu_spacewire.Base.Within.{Within-le, Within-bit_and_right, Within-refl}
use qemu_spacewire.Reg.{RegOffset, offset_value, e_ctr, other}
use qemu_spacewire.Apb.{core_id, reg_offset, region_size}

-- The enumerators of t_grspw_reg_offset.
abbrev pub IsRegister : RegOffset → Type 0
IsRegister (other n) = ⊥
IsRegister _ = Unit {0}

-- The address of a register of a core, from the start of the region.
abbrev pub address : ℕ → RegOffset → ℕ
address i o = i * 256 + offset_value o

abbrev Decodes : ℕ → RegOffset → Type 0
Decodes i o =
    (core_id (address i o) ≡ i) × (reg_offset (address i o) ≡ o) × (address i o + 4 ≤ region_size)

Decodes-zero : (o : RegOffset) → IsRegister o → Decodes 0 o
unfolding core_id reg_offset offset_value
Decodes-zero (other n) r = absurd r
Decodes-zero e_ctr r = (refl, refl, omega arith)
Decodes-zero _ r = (refl, refl, omega arith)

Decodes-one : (o : RegOffset) → IsRegister o → Decodes 1 o
unfolding core_id reg_offset offset_value
Decodes-one (other n) r = absurd r
Decodes-one e_ctr r = (refl, refl, omega arith)
Decodes-one _ r = (refl, refl, omega arith)

Decodes-two : (o : RegOffset) → IsRegister o → Decodes 2 o
unfolding core_id reg_offset offset_value
Decodes-two (other n) r = absurd r
Decodes-two e_ctr r = (refl, refl, omega arith)
Decodes-two _ r = (refl, refl, omega arith)

Decodes-three : (o : RegOffset) → IsRegister o → Decodes 3 o
unfolding core_id reg_offset offset_value
Decodes-three (other n) r = absurd r
Decodes-three e_ctr r = (refl, refl, omega arith)
Decodes-three _ r = (refl, refl, omega arith)

-- Every register of every core has an address of its own in the region: 256 bytes for each core, and
-- the register's offset in them. The access finds the core and the register back, and all four bytes
-- of the register lie within the region that is mapped.
pub register_address :
    (i : ℕ) (o : RegOffset)
    → i < 4
    → IsRegister o
    → (core_id (address i o) ≡ i) × (reg_offset (address i o) ≡ o) × (address i o + 4 ≤ region_size)
register_address zero o lt r = Decodes-zero o r
register_address (suc zero) o lt r = Decodes-one o r
register_address (suc (suc zero)) o lt r = Decodes-two o r
register_address (suc (suc (suc zero))) o lt r = Decodes-three o r
register_address (suc (suc (suc (suc i)))) o lt r = absurd (omega arith)

-- No address is of a core that does not exist.
pub core_id-lt : (addr : ℕ) → core_id addr < 4
unfolding core_id
core_id-lt addr = omega (arith, Within-le (Within-bit_and_right (addr / 2 ^ 8) 3 3 (Within-refl 3)))
