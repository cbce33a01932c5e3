-- ===== src/Core/TxThread/Count.antt =====
-- How many entries of a table are set.
use qemu_spacewire.Base.{
  ℕ, zero, suc, ◌≤◌, ◌<◌, ◌≡◌, ◌≢◌, refl, sym, ap, arith, Bool, true, false, if◌then◌else◌,
  Bool-cases, inl, inr, ◌==◌,
}

abbrev pub count : ℕ → (ℕ → Bool) → ℕ
count zero f = 0
count (suc n) f = let rest = count n f in if f n then suc rest else rest

pub count_le : (n : ℕ) (f : ℕ → Bool) → count n f ≤ n
count_le zero f = omega arith
count_le (suc n) f = ground (arith, count_le n f)

pub count_ext : (n : ℕ) (f g : ℕ → Bool) → ((j : ℕ) → j < n → g j ≡ f j) → count n g ≡ count n f
count_ext zero f g e = refl
count_ext (suc n) f g e =
    ground (arith, e n (omega arith), count_ext n f g (λ j lt. e j (omega arith)))

-- An entry that is cleared, while the others stay.
pub count_drops :
    (n i : ℕ) (f g : ℕ → Bool)
    → i < n
    → f i ≡ true
    → g i ≡ false
    → ((j : ℕ) → j < n → j ≢ i → g j ≡ f j)
    → suc (count n g) ≡ count n f
count_drops zero i f g lt on off e = absurd (omega arith)
count_drops (suc n) i f g lt on off e = elim (Bool-cases (i == n)) [
  | inl last ↦
      let same : i ≡ n = ground (arith, last) in
      let rest = count_ext n f g (λ j k. e j (omega arith) (λ x. omega (arith, k, x, same))) in
      ground (arith, rest, ap f same, ap g same)
  | inr earlier ↦
      let ne : i ≢ n = ground (arith, earlier) in
      let k : i < n = omega (arith, lt, ne) in
      let rest = count_drops n i f g k on off (λ j l x. e j (omega arith) x) in
      ground (arith, rest, e n (omega arith) (λ x. ne (sym x)))
]
