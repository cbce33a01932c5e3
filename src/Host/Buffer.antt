-- ===== src/Host/Buffer.antt =====
-- Byte arrays of C: `memcpy` out of and into an array at an offset, with its bounds.
use qemu_spacewire.Base.{
  ℕ, zero, suc, ◌+◌, ◌≤◌, ◌<◌, ◌≡◌, refl, ap, arith, List, [], ◌∷◌, ◌++◌, length, Option, none,
  some, Option-cases, inl, inr,
}
use mathlib.Core.Option

-- The `n` bytes at the front; `none` where the array is shorter.
unfoldable pub prefix : ℕ → List ℕ → Option (List ℕ)
prefix zero xs = some []
prefix (suc n) [] = none
prefix (suc n) (x ∷ xs) = Option.map (λ ys. x ∷ ys) (prefix n xs)

-- The `n` bytes at offset `i`.
unfoldable pub slice : ℕ → ℕ → List ℕ → Option (List ℕ)
unfolding prefix
slice zero n xs = prefix n xs
slice (suc i) zero [] = some []
slice (suc i) (suc n) [] = none
slice (suc i) n (x ∷ xs) = slice i n xs

-- The array with its front replaced by `src`; `none` where `src` does not fit.
unfoldable pub overlay : List ℕ → List ℕ → Option (List ℕ)
overlay xs [] = some xs
overlay [] (y ∷ ys) = none
overlay (x ∷ xs) (y ∷ ys) = Option.map (λ zs. y ∷ zs) (overlay xs ys)

-- `src` stored at offset `i`.
unfoldable pub overwrite : List ℕ → ℕ → List ℕ → Option (List ℕ)
unfolding overlay
overwrite xs zero src = overlay xs src
overwrite [] (suc i) [] = some []
overwrite [] (suc i) (y ∷ ys) = none
overwrite (x ∷ xs) (suc i) src = Option.map (λ zs. x ∷ zs) (overwrite xs i src)

pub prefix-append : (xs ys : List ℕ) → prefix (length xs) (xs ++ ys) ≡ some xs
unfolding prefix
prefix-append [] ys = refl
prefix-append (x ∷ xs) ys = rw (prefix-append xs ys)

pub prefix_self : (xs : List ℕ) → prefix (length xs) xs ≡ some xs
unfolding prefix
prefix_self [] = refl
prefix_self (x ∷ xs) = rw (prefix_self xs)

pub slice-append : (xs ys zs : List ℕ) → slice (length xs) (length ys) (xs ++ (ys ++ zs)) ≡ some ys
unfolding slice
slice-append [] ys zs = prefix-append ys zs
slice-append (x ∷ xs) ys zs = slice-append xs ys zs

pub overlay-append :
    (old src rest : List ℕ)
    → length src ≡ length old
    → overlay (old ++ rest) src ≡ some (src ++ rest)
unfolding overlay
overlay-append [] [] rest h = refl
overlay-append [] (y ∷ ys) rest h = absurd (omega arith)
overlay-append (x ∷ xs) [] rest h = absurd (omega arith)
overlay-append (x ∷ xs) (y ∷ ys) rest h = rw (overlay-append xs ys rest (omega arith))

-- A copy over a whole array.
pub overwrite_whole : (old src : List ℕ) → length src ≡ length old → overwrite old 0 src ≡ some src
unfolding overwrite overlay
overwrite_whole [] [] h = refl
overwrite_whole [] (y ∷ ys) h = absurd (omega arith)
overwrite_whole (x ∷ xs) [] h = absurd (omega arith)
overwrite_whole (x ∷ xs) (y ∷ ys) h = rw (overwrite_whole xs ys (omega arith))

pub overwrite-append :
    (xs old src rest : List ℕ)
    → length src ≡ length old
    → overwrite (xs ++ (old ++ rest)) (length xs) src ≡ some (xs ++ (src ++ rest))
unfolding overwrite
overwrite-append [] old src rest h = overlay-append old src rest h
overwrite-append (x ∷ xs) old src rest h = rw (overwrite-append xs old src rest h)

-- An array that is long enough splits in two.
pub split_at :
    (n : ℕ) (xs : List ℕ)
    → n ≤ length xs
    → (front : List ℕ) × (back : List ℕ) × (xs ≡ front ++ back) × (length front ≡ n)
split_at zero xs h = ([], xs, refl, refl)
split_at (suc n) [] h = absurd (omega arith)
split_at (suc n) (x ∷ xs) h =
    let (front, back, e, l) = split_at n xs (omega arith) in
    (x ∷ front, back, ap (λ (zs : List ℕ). x ∷ zs) e, ap suc l)

pub split_head : (xs : List ℕ) → 0 < length xs → (x : ℕ) × (back : List ℕ) × (xs ≡ x ∷ back)
split_head [] h = absurd (omega arith)
split_head (x ∷ xs) h = (x, xs, refl)

-- Within the bounds of an array there is no fault, and the lengths are as C has them.
pub prefix-some :
    (n : ℕ) (xs : List ℕ)
    → n ≤ length xs
    → (ys : List ℕ) × (prefix n xs ≡ some ys) × (length ys ≡ n)
unfolding prefix
prefix-some zero xs h = ([], refl, refl)
prefix-some (suc n) [] h = absurd (omega arith)
prefix-some (suc n) (x ∷ xs) h =
    let (ys, e, l) = prefix-some n xs (omega arith) in (x ∷ ys, rw e refl, ap suc l)

pub slice-some :
    (i n : ℕ) (xs : List ℕ)
    → i + n ≤ length xs
    → (ys : List ℕ) × (slice i n xs ≡ some ys) × (length ys ≡ n)
unfolding slice
slice-some zero n xs h = prefix-some n xs (omega arith)
slice-some (suc i) n [] h = absurd (omega arith)
slice-some (suc i) n (x ∷ xs) h = slice-some i n xs (omega arith)

pub overwrite-some :
    (xs : List ℕ) (i : ℕ) (src : List ℕ)
    → i + length src ≤ length xs
    → (ys : List ℕ) × (overwrite xs i src ≡ some ys) × (length ys ≡ length xs)
unfolding overwrite overlay
overwrite-some xs zero [] h = (xs, refl, refl)
overwrite-some [] zero (y ∷ ys) h = absurd (omega arith)
overwrite-some (x ∷ xs) zero (y ∷ ys) h =
    let (zs, e, l) = overwrite-some xs zero ys (omega arith) in (y ∷ zs, rw e refl, ap suc l)
overwrite-some [] (suc i) src h = absurd (omega arith)
overwrite-some (x ∷ xs) (suc i) src h =
    let (zs, e, l) = overwrite-some xs i src (omega arith) in (x ∷ zs, rw e refl, ap suc l)

-- And where there is no fault, the bounds held.
pub prefix_bound :
    (n : ℕ) (xs ys : List ℕ) → prefix n xs ≡ some ys → (n ≤ length xs) × (length ys ≡ n)
unfolding prefix
prefix_bound zero xs ys e = ground arith
prefix_bound (suc n) [] ys e = ground arith
prefix_bound (suc n) (x ∷ xs) ys e = elim (Option-cases (prefix n xs)) [
  | inl none_ ↦ ground (arith, none_)
  | inr (zs, some_) ↦ ground (arith, some_, prefix_bound n xs zs some_)
]

pub slice_bound :
    (i n : ℕ) (xs ys : List ℕ)
    → slice i n xs ≡ some ys
    → (0 < n → i + n ≤ length xs) × (length ys ≡ n)
unfolding slice
slice_bound zero n xs ys e = let (b, l) = prefix_bound n xs ys e in (λ p. omega arith, l)
slice_bound (suc i) zero [] ys e = (λ p. absurd (omega arith), ground arith)
slice_bound (suc i) (suc n) [] ys e = ground arith
slice_bound (suc i) n (x ∷ xs) ys e =
    let (b, l) = slice_bound i n xs ys e in (λ p. omega (arith, b p), l)

pub overlay_bound :
    (xs src ys : List ℕ)
    → overlay xs src ≡ some ys
    → (length src ≤ length xs) × (length ys ≡ length xs)
unfolding overlay
overlay_bound xs [] ys e = ground arith
overlay_bound [] (b ∷ src) ys e = ground arith
overlay_bound (x ∷ xs) (b ∷ src) ys e = elim (Option-cases (overlay xs src)) [
  | inl none_ ↦ ground (arith, none_)
  | inr (zs, some_) ↦ ground (arith, some_, overlay_bound xs src zs some_)
]

pub length-overwrite :
    (xs : List ℕ) (i : ℕ) (src ys : List ℕ) → overwrite xs i src ≡ some ys → length ys ≡ length xs
unfolding overwrite
length-overwrite xs zero src ys e = (overlay_bound xs src ys e).1
length-overwrite [] (suc i) [] ys e = ground arith
length-overwrite [] (suc i) (b ∷ src) ys e = ground arith
length-overwrite (x ∷ xs) (suc i) src ys e = elim (Option-cases (overwrite xs i src)) [
  | inl none_ ↦ ground (arith, none_)
  | inr (zs, some_) ↦ ground (arith, some_, length-overwrite xs i src zs some_)
]

prefix-overlaid :
    (xs src ys : List ℕ) → overlay xs src ≡ some ys → prefix (length src) ys ≡ some src
unfolding prefix overlay
prefix-overlaid xs [] ys e = refl
prefix-overlaid [] (y ∷ src) ys e = ground arith
prefix-overlaid (x ∷ xs) (y ∷ src) ys e = elim (Option-cases (overlay xs src)) [
  | inl n ↦ ground (arith, n, e)
  | inr (zs, s) ↦ ground (arith, s, e, prefix-overlaid xs src zs s)
]

-- What was stored is read back.
pub slice-overwritten :
    (xs : List ℕ) (i : ℕ) (src ys : List ℕ)
    → overwrite xs i src ≡ some ys
    → slice i (length src) ys ≡ some src
unfolding slice overwrite
slice-overwritten xs zero src ys e = prefix-overlaid xs src ys e
slice-overwritten [] (suc i) [] ys e = ground (arith, e)
slice-overwritten [] (suc i) (y ∷ src) ys e = ground (arith, e)
slice-overwritten (x ∷ xs) (suc i) src ys e = elim (Option-cases (overwrite xs i src)) [
  | inl n ↦ ground (arith, n, e)
  | inr (zs, s) ↦ ground (arith, s, e, slice-overwritten xs i src zs s)
]
