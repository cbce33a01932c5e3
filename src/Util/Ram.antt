-- ===== src/Util/Ram.antt =====
-- write_leon3_ram and read_leon3_ram of grspw/grlib_utilgrspw.c: the memory of the guest.
use qemu_spacewire.Base.{
  ℕ, zero, suc, ◌%◌, ◌<◌, ◌≢◌, Bool, true, false, List, [], ◌∷◌, ◌≡◌, refl, arith, length, ltb, ◌∙◌,
  sym, ap, if◌then◌else◌,
}
use qemu_spacewire.Host.{Platform, Host, M, done, fault, ◌>>=◌, or_fault}
use qemu_spacewire.Host.Buffer.{prefix, overwrite, prefix_self, overwrite_whole}
use qemu_spacewire.Util.Swap.{
  endianness_swap, endianness_swap_lem, reverse_words, reverse_words-reverse_words,
  length-reverse_words,
}

-- A new buffer. Its bytes are indeterminate in C; here they are 0.
unfoldable pub malloc : ℕ → List ℕ
malloc zero = []
malloc (suc n) = 0 ∷ malloc n

module _ {p : Platform} where
  unfoldable pub address_space_read : ℕ → ℕ → M p (List ℕ)
  address_space_read addr len h = done (p.address_space_read h.memory addr len, h)

  unfoldable pub address_space_write : ℕ → List ℕ → M p (Unit {0})
  address_space_write addr bytes h =
      done (tt, record h { memory = p.address_space_write h.memory addr bytes })

  unfoldable pub write_leon3_ram : ℕ → List ℕ → ℕ → Bool → M p (Unit {0})
  write_leon3_ram addr buff len swap_endian = do
    tmpbuff ←
        (if swap_endian
          then or_fault (endianness_swap (malloc len) buff len)
          else or_fault (prefix len buff))
    address_space_write addr tmpbuff

  -- The contents of `buff` afterwards. The straight copy is of `byte`, an `int32`: from 2 ^ 31 on its
  -- conversion to a size is beyond every array.
  unfoldable pub read_leon3_ram : ℕ → List ℕ → ℕ → Bool → M p (List ℕ)
  read_leon3_ram addr buff len swap_endian = do
    tmpbuff ← address_space_read addr len
    (if swap_endian
        then or_fault (endianness_swap buff tmpbuff len)
        else if ltb len 0x8000_0000
        then (or_fault (prefix len tmpbuff) >>= λ bytes. or_fault (overwrite buff 0 bytes))
        else (λ h. fault))

-- What the code relies on: a read gives as many bytes as were asked for.
pub record IsSized (p : Platform) : Type 0 where
  pub sized : (m : p.Memory) (addr len : ℕ) → length (p.address_space_read m addr len) ≡ len

-- What the code relies on: bytes that were written are read back, as many as were asked for.
pub record IsMemory (p : Platform) : Type 0 where
  pub reads_back :
      (m : p.Memory) (addr : ℕ) (bytes : List ℕ)
      → p.address_space_read (p.address_space_write m addr bytes) addr (length bytes) ≡ bytes

pub length-malloc : (n : ℕ) → length (malloc n) ≡ n
unfolding malloc
length-malloc zero = refl
length-malloc (suc n) = omega (arith, length-malloc n)

module _ {p : Platform} where
  -- Writing in the byte order of the guest, and in that of the host.
  pub write_leon3_ram-swapped :
      (addr : ℕ) (bytes : List ℕ) (h : Host p)
      → length bytes < 0x8000_0000
      → length bytes % 4 ≢ 2
      → write_leon3_ram addr bytes (length bytes) true h
        ≡ done (tt, record h { memory = p.address_space_write h.memory addr (reverse_words bytes) })
  unfolding write_leon3_ram address_space_write ◌>>=◌
  write_leon3_ram-swapped addr bytes h b w =
      rw (endianness_swap_lem (malloc (length bytes)) bytes (length-malloc (length bytes)) b)
        (ground (arith, w))

  pub write_leon3_ram-straight :
      (addr : ℕ) (bytes : List ℕ) (h : Host p)
      → write_leon3_ram addr bytes (length bytes) false h
        ≡ done (tt, record h { memory = p.address_space_write h.memory addr bytes })
  unfolding write_leon3_ram address_space_write ◌>>=◌
  write_leon3_ram-straight addr bytes h = rw (prefix_self bytes) refl

  -- Reading into a buffer of exactly the length that is read.
  pub read_leon3_ram-swapped :
      (addr len : ℕ) (buff bytes : List ℕ) (h : Host p)
      → p.address_space_read h.memory addr len ≡ bytes
      → length bytes ≡ len
      → length buff ≡ len
      → len < 0x8000_0000
      → len % 4 ≢ 2
      → read_leon3_ram addr buff len true h ≡ done (reverse_words bytes, h)
  unfolding read_leon3_ram address_space_read ◌>>=◌
  read_leon3_ram-swapped addr len buff bytes h e l k b w =
      let s = endianness_swap_lem buff bytes (k ∙ sym l) (rw l b) in
      rw (e, sym l) (rw s (ground (arith, w)))

  pub read_leon3_ram-straight :
      (addr len : ℕ) (buff bytes : List ℕ) (h : Host p)
      → p.address_space_read h.memory addr len ≡ bytes
      → length bytes ≡ len
      → length buff ≡ len
      → len < 0x8000_0000
      → read_leon3_ram addr buff len false h ≡ done (bytes, h)
  unfolding read_leon3_ram address_space_read ◌>>=◌
  read_leon3_ram-straight addr len buff bytes h e l k b =
      rw (e, sym l)
        (rw (prefix_self bytes) (ground (arith, l, b, overwrite_whole buff bytes (l ∙ sym k))))

-- What was written to the memory of the guest is read back, in either byte order; in the order of
-- the guest, for a length that does not leave two bytes over.
pub leon3_ram_round_trip :
    {p : Platform} (addr : ℕ) (bytes buff : List ℕ) (swap_endian : Bool) (h : Host p)
    → IsMemory p
    → length buff ≡ length bytes
    → length bytes < 0x8000_0000
    → (swap_endian ≡ true → length bytes % 4 ≢ 2)
    → (h₁ : Host p) × (write_leon3_ram addr bytes (length bytes) swap_endian h ≡ done (tt, h₁))
      × (read_leon3_ram addr buff (length bytes) swap_endian h₁ ≡ done (bytes, h₁))
leon3_ram_round_trip {p} addr bytes buff true h m k b w =
    let n = length-reverse_words bytes in
    let h₁ = record h { memory = p.address_space_write h.memory addr (reverse_words bytes) } in
    let r =
      read_leon3_ram-swapped addr (length bytes) buff (reverse_words bytes) h₁
        (rw (sym n) (m.reads_back h.memory addr (reverse_words bytes))) n k b (w refl) in
    (
      h₁,
      write_leon3_ram-swapped addr bytes h b (w refl),
      r ∙ ap (λ (t : List ℕ). done (t, h₁)) (reverse_words-reverse_words bytes),
    )
leon3_ram_round_trip {p} addr bytes buff false h m k b w =
    let h₁ = record h { memory = p.address_space_write h.memory addr bytes } in
    (
      h₁,
      write_leon3_ram-straight addr bytes h,
      read_leon3_ram-straight addr (length bytes) buff bytes h₁ (m.reads_back h.memory addr bytes)
          refl k b,
    )
