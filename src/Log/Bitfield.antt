-- ===== src/Log/Bitfield.antt =====
-- grlib_loggrspw_print_bitfield: the line of a register shows its value.
use native.Mathlib.Nat.{div-div-eq-div-mul, pow-suc}
use qemu_spacewire.Base.{
  ℕ, zero, suc, ◌+◌, ◌*◌, ◌/◌, ◌^◌, ◌<◌, ◌≡◌, ◌∙◌, ap, arith, List, [], ◌∷◌, ◌++◌, ◌==◌,
  if◌then◌else◌,
}
use qemu_spacewire.Log.{digit, getbit, cells, indent, codes, bitfield_text}

-- A reader of a line: the characters '0' and '1' are the digits of a number in base 2, the first one
-- the highest, and every other character is passed over.
abbrev read_digit : ℕ → ℕ → ℕ
read_digit acc c = if c == b'0' then acc * 2 else if c == b'1' then acc * 2 + 1 else acc

abbrev pub read_bits : ℕ → List ℕ → ℕ
read_bits acc [] = acc
read_bits acc (c ∷ cs) = read_bits (read_digit acc c) cs

-- The numbers of `n` bits from bit `k` on, the highest first.
abbrev down : ℕ → ℕ → List ℕ
down k zero = []
down k (suc n) = (k + n) ∷ down k n

half : (x k : ℕ) → x / 2 ^ suc k ≡ x / 2 ^ k / 2
half x k = rw (div-div-eq-div-mul x (2 ^ k) 2) (ap (λ m. x / m) (pow-suc 2 k))

read_cell : (x k : ℕ) → read_digit (x / 2 ^ suc k) (digit (getbit x k)) ≡ x / 2 ^ k
read_cell x k = rw (half x k) (ground arith)

read_cells :
    (x k n : ℕ) (rest : List ℕ)
    → read_bits (x / 2 ^ (k + n)) (cells x (down k n) ++ rest) ≡ read_bits (x / 2 ^ k) rest
read_cells x k zero rest = let e : k + 0 ≡ k = omega arith in ap (λ m. read_bits (x / 2 ^ m) rest) e
read_cells x k (suc n) rest =
    let e : k + suc n ≡ suc (k + n) = omega arith in
    ap (λ m. read_bits (x / 2 ^ m) (cells x (down k (suc n)) ++ rest)) e
    ∙ (ap (λ acc. read_bits acc (cells x (down k n) ++ rest)) (read_cell x (k + n))
        ∙ read_cells x k n rest)

-- A row and the blanks behind it.
abbrev rows : ℕ → List ℕ → List ℕ → List ℕ
rows x is rest = cells x is ++ (indent ++ rest)

-- The line that grlib_loggrspw_print_bitfield prints for a 32-bit value has the bits of the value for
-- its digits, from bit 31 to bit 0: read in base 2 it gives the value back.
pub read_bits-bitfield_text : (x : ℕ) → x < 2 ^ 32 → read_bits 0 (bitfield_text x) ≡ x
unfolding bitfield_text
read_bits-bitfield_text x lt =
    let start : 0 ≡ x / 2 ^ 32 = omega arith in
    let end : x / 2 ^ 0 ≡ x = omega arith in
    let row₀ : List ℕ = cells x (down 0 7) ++ codes "\n" in
    let row₁ : List ℕ = rows x (down 7 7) row₀ in
    let row₂ : List ℕ = rows x (down 14 7) row₁ in
    let row₃ : List ℕ = rows x (down 21 7) row₂ in
    ap (λ acc. read_bits acc (bitfield_text x)) start
    ∙ read_cells x 28 4 (indent ++ row₃)
    ∙ read_cells x 21 7 (indent ++ row₂)
    ∙ read_cells x 14 7 (indent ++ row₁)
    ∙ read_cells x 7 7 (indent ++ row₀)
    ∙ read_cells x 0 7 (codes "\n")
    ∙ end
