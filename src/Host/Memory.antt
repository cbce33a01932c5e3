-- ===== src/Host/Memory.antt =====
-- The sample platform's guest memory: what is written is read back.
use qemu_spacewire.Base.{ℕ, zero, suc, ◌≤◌, List, [], ◌∷◌, ◌≡◌, refl, arith, ap₂, ◌∙◌, length}
use qemu_spacewire.Host.Sample.{read_bytes, write_bytes}

read_bytes_ext :
    (f g : ℕ → ℕ) (addr n : ℕ)
    → ((a : ℕ) → addr ≤ a → f a ≡ g a)
    → read_bytes f addr n ≡ read_bytes g addr n
read_bytes_ext f g addr zero e = refl
read_bytes_ext f g addr (suc n) e =
    ap₂ (λ (x : ℕ) (xs : List ℕ). x ∷ xs) (e addr (omega arith))
      (read_bytes_ext f g (suc addr) n (λ a le. e a (omega arith)))

pub read_bytes-write_bytes :
    (memory : ℕ → ℕ) (addr : ℕ) (bytes : List ℕ)
    → read_bytes (write_bytes memory addr bytes) addr (length bytes) ≡ bytes
read_bytes-write_bytes memory addr [] = refl
read_bytes-write_bytes memory addr (b ∷ bytes) =
    ap₂ (λ (x : ℕ) (xs : List ℕ). x ∷ xs) (ground arith)
      (read_bytes_ext (write_bytes memory addr (b ∷ bytes)) (write_bytes memory (suc addr) bytes)
          (suc addr) (length bytes) (λ a le. ground (arith, le))
        ∙ read_bytes-write_bytes memory (suc addr) bytes)

pub length-read_bytes : (memory : ℕ → ℕ) (addr n : ℕ) → length (read_bytes memory addr n) ≡ n
length-read_bytes memory addr zero = refl
length-read_bytes memory addr (suc n) = omega (arith, length-read_bytes memory (suc addr) n)
