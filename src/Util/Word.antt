-- ===== src/Util/Word.antt =====
-- Unsigned machine integers of C, and their bytes in the memory of a little-endian host.
use qemu_spacewire.Base.{ℕ, ◌+◌, ◌*◌, ◌/◌, ◌%◌, ◌^◌, ◌<◌, ◌≡◌, refl, length, arith, List, [], ◌∷◌}

abbrev pub u8 : ℕ → ℕ
u8 n = n % 2 ^ 8

abbrev pub u32 : ℕ → ℕ
u32 n = n % 2 ^ 32

-- The four bytes of a `uint32`, lowest first.
unfoldable pub bytes_of : ℕ → List ℕ
bytes_of n = n % 256 ∷ n / 256 % 256 ∷ n / 65536 % 256 ∷ n / 16777216 % 256 ∷ []

-- The byte at the front of an array.
abbrev pub byte_of : List ℕ → ℕ
byte_of [] = 0
byte_of (a ∷ rest) = a

-- The `uint32` at the front of an array of bytes.
unfoldable pub word_of : List ℕ → ℕ
word_of (a ∷ b ∷ c ∷ d ∷ rest) = a + 256 * b + 65536 * c + 16777216 * d
word_of _ = 0

pub word_of-bytes_of : (n : ℕ) → n < 2 ^ 32 → word_of (bytes_of n) ≡ n
unfolding word_of bytes_of
word_of-bytes_of n h = omega arith

pub length-bytes_of : (n : ℕ) → length (bytes_of n) ≡ 4
unfolding bytes_of
length-bytes_of n = refl
