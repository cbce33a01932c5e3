-- ===== src/Com/Table.antt =====
-- The table of transmit descriptors in the guest's memory.
use qemu_spacewire.Base.{
  ℕ, zero, suc, ◌+◌, ◌*◌, ◌/◌, ◌^◌, ◌≤◌, ◌<◌, ◌≡◌, ◌≢◌, refl, sym, ◌∙◌, ap, ap₂, arith, Bool, false,
  List, [], ◌∷◌, length, ◌⊎◌, if◌then◌else◌,
}
use qemu_spacewire.Base.Bits.{bit, flag, bit-flag, bit-zero}
use qemu_spacewire.Base.Within.{Within-le, Within-refl, Within-bit_and_right, word_ext, IsWord}
use qemu_spacewire.Host.{Platform}
use qemu_spacewire.Util.Mask.{clearbit, deposit, bit_not}
use qemu_spacewire.Util.Mask.Bits.{bit-clearbit, bit-deposit}
use qemu_spacewire.Util.Mask.Keeps.{deposit-IsWord}
use qemu_spacewire.Util.Word.{bytes_of, word_of, word_of-bytes_of, length-bytes_of, u32}
use qemu_spacewire.Util.Swap.{reverse_words, reverse_words-reverse_words, length-reverse_words}
use qemu_spacewire.Com.Descriptor.{word}

-- Bit by bit: the index in the field of the address.
field_bits :
    (q c c' i : ℕ)
    → c < 64
    → c' < 64
    → (if bit 0x3f0 i then bit (16 * c') i else bit (1024 * q + 16 * c) i)
      ≡ bit (1024 * q + 16 * c') i
unfolding bit
field_bits q c c' zero lt lt' = ground arith
field_bits q c c' (suc zero) lt lt' = ground arith
field_bits q c c' (suc (suc zero)) lt lt' = ground arith
field_bits q c c' (suc (suc (suc zero))) lt lt' = ground arith
field_bits q c c' (suc (suc (suc (suc zero)))) lt lt' = ground arith
field_bits q c c' (suc (suc (suc (suc (suc zero))))) lt lt' = ground arith
field_bits q c c' (suc (suc (suc (suc (suc (suc zero)))))) lt lt' = ground arith
field_bits q c c' (suc (suc (suc (suc (suc (suc (suc zero))))))) lt lt' = ground arith
field_bits q c c' (suc (suc (suc (suc (suc (suc (suc (suc zero)))))))) lt lt' = ground arith
field_bits q c c' (suc (suc (suc (suc (suc (suc (suc (suc (suc zero))))))))) lt lt' = ground arith
field_bits q c c' (suc (suc (suc (suc (suc (suc (suc (suc (suc (suc i)))))))))) lt lt' =
    let e : (1024 * q + 16 * c) / 2 / 2 / 2 / 2 / 2 / 2 / 2 / 2 / 2 / 2 ≡ q = omega (arith, lt) in
    let e' : (1024 * q + 16 * c') / 2 / 2 / 2 / 2 / 2 / 2 / 2 / 2 / 2 / 2 ≡ q =
      omega (arith, lt') in
    rw (bit-zero i, e, e') refl

-- A new index in the address of the current descriptor, which SPWTXD holds.
pub deposit-index :
    (q c c' : ℕ)
    → c < 64
    → c' < 64
    → 1024 * q + 1024 ≤ 2 ^ 32
    → deposit (1024 * q + 16 * c) 0x3f0 (u32 (c' * 16)) ≡ 1024 * q + 16 * c'
deposit-index q c c' lt lt' room =
    let same : u32 (c' * 16) ≡ 16 * c' = omega (arith, lt') in
    rw same (
      word_ext (deposit (1024 * q + 16 * c) 0x3f0 (16 * c')) (1024 * q + 16 * c')
        (deposit-IsWord (1024 * q + 16 * c) 0x3f0 (16 * c') (omega (arith, lt, room)) (omega arith))
        (omega (arith, lt', room))
        λ i b. bit-deposit (1024 * q + 16 * c) 0x3f0 (16 * c') i b ∙ field_bits q c c' i lt lt')

-- The bytes of a memory from an address on.
abbrev pub bytes_from : (ℕ → ℕ) → ℕ → ℕ → List ℕ
bytes_from f addr zero = []
bytes_from f addr (suc n) = f addr ∷ bytes_from f (suc addr) n

-- What the code relies on of RAM: it is an array of bytes. A read gives those at its addresses, and a
-- write sets those at its addresses and leaves the others.
pub record IsRam (p : Platform) (byte : p.Memory → ℕ → ℕ) : Type 0 where
  pub reads :
      (m : p.Memory) (addr n : ℕ) → p.address_space_read m addr n ≡ bytes_from (byte m) addr n
  pub writes :
      (m : p.Memory) (addr : ℕ) (bytes : List ℕ)
      → bytes_from (byte (p.address_space_write m addr bytes)) addr (length bytes) ≡ bytes
  pub leaves :
      (m : p.Memory) (addr : ℕ) (bytes : List ℕ) (a : ℕ)
      → (a < addr) ⊎ (addr + length bytes ≤ a)
      → byte (p.address_space_write m addr bytes) a ≡ byte m a

bytes_from_ext :
    (f g : ℕ → ℕ) (addr n : ℕ)
    → ((a : ℕ) → addr ≤ a → a < addr + n → f a ≡ g a)
    → bytes_from f addr n ≡ bytes_from g addr n
bytes_from_ext f g addr zero e = refl
bytes_from_ext f g addr (suc n) e =
    ap₂ (λ (x : ℕ) (xs : List ℕ). x ∷ xs) (e addr (omega arith) (omega arith))
      (bytes_from_ext f g (suc addr) n (λ a le lt. e a (omega arith) (omega arith)))

length-bytes_from : (f : ℕ → ℕ) (addr n : ℕ) → length (bytes_from f addr n) ≡ n
length-bytes_from f addr zero = refl
length-bytes_from f addr (suc n) = omega (arith, length-bytes_from f (suc addr) n)

-- The control word is the first of the four words.
first_word :
    (f : ℕ → ℕ) (addr : ℕ)
    → word 0 (reverse_words (bytes_from f addr 16)) ≡ word_of (reverse_words (bytes_from f addr 4))
unfolding word reverse_words word_of
first_word f addr = refl

-- The bytes of two descriptors lie apart, and so does the control word of one from the other.
apart :
    (base i j a n : ℕ)
    → n ≡ 4
    → i ≢ j
    → base + 16 * j ≤ a
    → a < base + 16 * j + 16
    → (a < base + 16 * i) ⊎ (base + 16 * i + n ≤ a)
apart base i j a n four ne le lt = ground arith

clearbit-IsWord : (ctrl : ℕ) → IsWord (clearbit ctrl (flag 12))
unfolding clearbit bit_not flag
clearbit-IsWord ctrl =
    omega (arith, Within-le (Within-bit_and_right ctrl 0xffff_efff 0xffff_efff (Within-refl _)))

-- The bit EN of descriptor `i` of the table at `base`.
abbrev pub is_enabled : (p : Platform) → ℕ → p.Memory → ℕ → Bool
is_enabled p base m i = bit (word 0 (reverse_words (p.address_space_read m (base + 16 * i) 16))) 12

module _ {p : Platform} (byte : p.Memory → ℕ → ℕ) (ram : IsRam p byte) where
  -- The control word of a descriptor, after it was written.
  written_control :
      (m : p.Memory) (addr c : ℕ)
      → IsWord c
      → word 0 (
          reverse_words (
            p.address_space_read
              (p.address_space_write m addr (reverse_words (bytes_of c)))
              addr
              16))
        ≡ c
  written_control m addr c w =
      let m' = p.address_space_write m addr (reverse_words (bytes_of c)) in
      let n : length (reverse_words (bytes_of c)) ≡ 4 =
        length-reverse_words (bytes_of c) ∙ length-bytes_of c in
      let four : bytes_from (byte m') addr 4 ≡ reverse_words (bytes_of c) =
        ap (λ k. bytes_from (byte m') addr k) (sym n)
        ∙ ram.writes m addr (reverse_words (bytes_of c)) in
      rw (ram.reads m' addr 16) (
        first_word (byte m') addr
        ∙ (ap (λ b. word_of (reverse_words b)) four
            ∙ (ap word_of (reverse_words-reverse_words (bytes_of c)) ∙ word_of-bytes_of c w)))

  -- Another descriptor, after a control word was written.
  pub is_enabled-other :
      (base : ℕ) (m : p.Memory) (i j : ℕ) (bytes : List ℕ)
      → length bytes ≡ 4
      → i ≢ j
      → is_enabled p base (p.address_space_write m (base + 16 * i) bytes) j ≡ is_enabled p base m j
  is_enabled-other base m i j bytes n ne =
      let m' = p.address_space_write m (base + 16 * i) bytes in
      let same : bytes_from (byte m') (base + 16 * j) 16 ≡ bytes_from (byte m) (base + 16 * j) 16 =
        bytes_from_ext (byte m') (byte m) (base + 16 * j) 16 λ a le lt.
          ram.leaves m (base + 16 * i) bytes a (apart base i j a (length bytes) n ne le lt) in
      let read : p.address_space_read m' (base + 16 * j) 16
          ≡ p.address_space_read m (base + 16 * j) 16 =
        ram.reads m' (base + 16 * j) 16 ∙ (same ∙ sym (ram.reads m (base + 16 * j) 16)) in
      ap (λ b. bit (word 0 (reverse_words b)) 12) read

  -- The descriptor whose bit EN is cleared in the memory.
  pub is_enabled-cleared :
      (base : ℕ) (m : p.Memory) (i ctrl : ℕ)
      → is_enabled p base
          (p.address_space_write m
            (base + 16 * i)
            (reverse_words (bytes_of (clearbit ctrl (flag 12)))))
          i
        ≡ false
  is_enabled-cleared base m i ctrl =
      let c = clearbit ctrl (flag 12) in
      ap (λ w. bit w 12) (written_control m (base + 16 * i) c (clearbit-IsWord ctrl))
      ∙ ground (arith, bit-clearbit ctrl (flag 12) 12 (omega arith), bit-flag 12 12)
