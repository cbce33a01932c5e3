-- ===== src/Log/Numeral.antt =====
-- The numbers in the traces.
use qemu_spacewire.Base.{
  ℕ, zero, suc, ◌+◌, ◌-◌, ◌*◌, ◌/◌, ◌%◌, ◌^◌, ◌<◌, ◌≡◌, refl, ◌∙◌, arith, List, [], ◌∷◌, ◌++◌, ltb,
  Bool-cases, inl, inr, if◌then◌else◌,
}
use qemu_spacewire.Log.{digit, numeral, codes, register_str, readreg_line}
use mathlib.Core.List.{append_assoc}
use native.Mathlib.Nat.{pow-suc}

-- A reader of a number in base 16.
abbrev hex_digit : ℕ → ℕ
hex_digit c = if ltb c b'a' then c - b'0' else c - 87

abbrev pub read_hex : ℕ → List ℕ → ℕ
read_hex acc [] = acc
read_hex acc (c ∷ cs) = read_hex (acc * 16 + hex_digit c) cs

hex_digit-digit : (d : ℕ) → d < 16 → hex_digit (digit d) ≡ d
hex_digit-digit d lt = ground arith

read_hex-append :
    (acc : ℕ) (xs ys : List ℕ) → read_hex acc (xs ++ ys) ≡ read_hex (read_hex acc xs) ys
read_hex-append acc [] ys = refl
read_hex-append acc (x ∷ xs) ys = read_hex-append (acc * 16 + hex_digit x) xs ys

read_hex-numeral : (width x : ℕ) → x < 16 ^ width → read_hex 0 (numeral 16 width x) ≡ x
unfolding numeral
read_hex-numeral zero x lt = omega arith
read_hex-numeral (suc width) x lt =
    let small : x / 16 < 16 ^ width = omega (arith, lt, pow-suc 16 width) in
    let ih = read_hex-numeral width (x / 16) small in
    let d = hex_digit-digit (x % 16) (omega arith) in
    let long : read_hex 0 (numeral 16 width (x / 16) ++ (digit (x % 16) ∷ [])) ≡ x =
      read_hex-append 0 (numeral 16 width (x / 16)) (digit (x % 16) ∷ []) ∙ omega (arith, ih, d) in
    elim (Bool-cases (ltb x 16)) [
      | inl short ↦
          let one : hex_digit (digit x) ≡ x = hex_digit-digit x (ground (arith, short)) in
          rw short (omega (arith, one))
      | inr more ↦ rw more long
    ]

-- The line of a read of a register ends in the value that was read, in base 16: eight digits are enough
-- for every 32-bit value, and it can be read back from them.
pub readreg_line-value :
    (grspw_id offset x : ℕ)
    → x < 2 ^ 32
    → (front : List ℕ) × (digits : List ℕ) × (readreg_line grspw_id offset x
        ≡ front ++ (codes " = " ++ (digits ++ codes "\n")))
      × (read_hex 0 digits ≡ x)
readreg_line-value grspw_id offset x lt = (
  codes "READ  [ CORE "
      ++ (numeral 10 10 grspw_id ++ (codes " ] REGISTER " ++ register_str offset)),
  numeral 16 8 x,
  simp append_assoc,
  read_hex-numeral 8 x (omega (arith, lt)),
)
