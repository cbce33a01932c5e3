-- ===== src/Util/Swap.antt =====
-- endianness_swap of grspw/grlib_utilgrspw.c: the byte order of the guest and of the host.
use qemu_spacewire.Base.{
  ℕ, zero, suc, ◌%◌, ◌<◌, List, [], ◌∷◌, Option, none, some, ◌≡◌, refl, arith, length, ltb,
  if◌then◌else◌, ◌==◌,
}
use mathlib.Core.Option

-- The loop, on the arrays from `dest[i]` and `src[i]` on and the number of bytes that are left;
-- `none` is an access beyond an array. In the third case the second store is to `dest[i + 2]`.
unfoldable pub swap_loop : ℕ → List ℕ → List ℕ → Option (List ℕ)
swap_loop (suc (suc (suc (suc byte)))) (_ ∷ _ ∷ _ ∷ _ ∷ dest) (a ∷ b ∷ c ∷ d ∷ src) =
    Option.map (λ rest. d ∷ c ∷ b ∷ a ∷ rest) (swap_loop byte dest src)
swap_loop (suc (suc (suc zero))) (_ ∷ _ ∷ _ ∷ dest) (a ∷ b ∷ c ∷ src) = some (c ∷ b ∷ a ∷ dest)
swap_loop (suc (suc zero)) (_ ∷ kept ∷ _ ∷ dest) (a ∷ b ∷ src) = some (b ∷ kept ∷ a ∷ dest)
swap_loop (suc zero) (_ ∷ dest) (a ∷ src) = some (a ∷ dest)
swap_loop zero dest src = some dest
swap_loop _ _ _ = none

-- `byte` is an `int32`: from 2 ^ 31 on it is negative, and the loop does not run.
unfoldable pub endianness_swap : List ℕ → List ℕ → ℕ → Option (List ℕ)
endianness_swap dest src len = swap_loop (if ltb len 0x8000_0000 then len else 0) dest src

-- Every group of four bytes turned round, and what is left at the end.
unfoldable pub reverse_words : List ℕ → List ℕ
reverse_words (a ∷ b ∷ c ∷ d ∷ rest) = d ∷ c ∷ b ∷ a ∷ reverse_words rest
reverse_words (a ∷ b ∷ c ∷ []) = c ∷ b ∷ a ∷ []
reverse_words (a ∷ b ∷ []) = b ∷ a ∷ []
reverse_words rest = rest

pub reverse_words-reverse_words : (xs : List ℕ) → reverse_words (reverse_words xs) ≡ xs
unfolding reverse_words
reverse_words-reverse_words (a ∷ b ∷ c ∷ d ∷ rest) = rw (reverse_words-reverse_words rest)
reverse_words-reverse_words (a ∷ b ∷ c ∷ []) = refl
reverse_words-reverse_words (a ∷ b ∷ []) = refl
reverse_words-reverse_words (a ∷ []) = refl
reverse_words-reverse_words [] = refl

pub length-reverse_words : (xs : List ℕ) → length (reverse_words xs) ≡ length xs
unfolding reverse_words
length-reverse_words (a ∷ b ∷ c ∷ d ∷ rest) = omega (arith, length-reverse_words rest)
length-reverse_words (a ∷ b ∷ c ∷ []) = refl
length-reverse_words (a ∷ b ∷ []) = refl
length-reverse_words (a ∷ []) = refl
length-reverse_words [] = refl

swap_loop_lem :
    (dest src : List ℕ)
    → length dest ≡ length src
    → swap_loop (length src) dest src
      ≡ (if length src % 4 == 2 then none else some (reverse_words src))
unfolding swap_loop reverse_words
swap_loop_lem (_ ∷ _ ∷ _ ∷ _ ∷ dest) (a ∷ b ∷ c ∷ d ∷ src) h =
    ground (arith, swap_loop_lem dest src (omega arith))
swap_loop_lem (_ ∷ _ ∷ _ ∷ []) (a ∷ b ∷ c ∷ []) h = refl
swap_loop_lem (_ ∷ _ ∷ []) (a ∷ b ∷ []) h = refl
swap_loop_lem (_ ∷ []) (a ∷ []) h = refl
swap_loop_lem [] [] h = refl
swap_loop_lem [] (a ∷ src) h = absurd (omega arith)
swap_loop_lem (_ ∷ dest) [] h = absurd (omega arith)
swap_loop_lem (_ ∷ []) (a ∷ b ∷ src) h = absurd (omega arith)
swap_loop_lem (_ ∷ _ ∷ dest) (a ∷ []) h = absurd (omega arith)
swap_loop_lem (_ ∷ _ ∷ []) (a ∷ b ∷ c ∷ src) h = absurd (omega arith)
swap_loop_lem (_ ∷ _ ∷ _ ∷ dest) (a ∷ b ∷ []) h = absurd (omega arith)
swap_loop_lem (_ ∷ _ ∷ _ ∷ []) (a ∷ b ∷ c ∷ d ∷ src) h = absurd (omega arith)
swap_loop_lem (_ ∷ _ ∷ _ ∷ _ ∷ dest) (a ∷ b ∷ c ∷ []) h = absurd (omega arith)

-- Into an array of exactly the length of the source, below 2 ^ 31 bytes: every word is turned round
-- and a rest of one or three bytes too, and a rest of two bytes is stored beyond the array.
pub endianness_swap_lem :
    (dest src : List ℕ)
    → length dest ≡ length src
    → length src < 0x8000_0000
    → endianness_swap dest src (length src)
      ≡ (if length src % 4 == 2 then none else some (reverse_words src))
unfolding endianness_swap
endianness_swap_lem dest src h b = ground (arith, swap_loop_lem dest src h)
