-- ===== src/Reg/Link.antt =====
-- What a write of SPWCTR does to the link state in SPWSTR and to the time counter in SPWTIM.
use qemu_spacewire.Base.{
  ℕ, zero, suc, ◌+◌, ◌*◌, ◌/◌, ◌%◌, ◌&&◌, ◌≡◌, refl, arith, bit_and, ltb, if◌then◌else◌, Bool-cases,
  inl, inr,
}
use Prim.Native.Nat.{bit_and-bitwise}
use qemu_spacewire.Base.Bits.{bit, bit-bit_and, bit-zero, bit-low_mask, bit_lt, bit_ext}
use qemu_spacewire.Base.Within.{IsWord, word_ext}
use qemu_spacewire.Host.{Platform, Host, done, pure, ◌>>=◌}
use qemu_spacewire.Util.Word.{u8, u32}
use qemu_spacewire.Util.Mask.{deposit}
use qemu_spacewire.Util.Mask.Bits.{bit-deposit, checkbit-flag}
use qemu_spacewire.Util.Mask.Keeps.{deposit-IsWord}
use qemu_spacewire.Mq.{send_spwtimecode}
use qemu_spacewire.Reg.{
  Registers, reset_registers, store_ctr, count_tick, link_start, link_disable, write_ctr,
}
use qemu_spacewire.Reg.Masks.{c_spwstr_ls, c_spwstr_lsrun}
use qemu_spacewire.Reg.Ctr.{ticked, written_ctr, write_ctr_lem, write_ctr-returns}

-- The field that was deposited is read back.
pub bit_and-deposit : (r m v : ℕ) → IsWord m → bit_and (deposit r m v) m ≡ bit_and v m
bit_and-deposit r m v w =
    let d = deposit r m v in
    bit_ext (bit_and d m + bit_and v m) (bit_and d m) (bit_and v m) (omega arith) (omega arith) λ i.
      elim (Bool-cases (bit m i)) [
        | inl e ↦
            ground
              (arith, bit-bit_and d m i, bit-bit_and v m i, bit-deposit r m v i (bit_lt 32 m i w e))
        | inr e ↦ ground (arith, bit-bit_and d m i, bit-bit_and v m i)
      ]

zero-bit_and : (m : ℕ) → bit_and 0 m ≡ 0
zero-bit_and m = bit_and-bitwise 0 m

-- The link state field.
abbrev pub link_state : Registers → ℕ
link_state r = bit_and r.str c_spwstr_ls

link_state-store_ctr :
    (grspw_id : ℕ) (r : Registers) (value : ℕ)
    → link_state (store_ctr grspw_id r value) ≡ (if bit value 6 then 0 else link_state r)
unfolding store_ctr reset_registers
link_state-store_ctr grspw_id r value =
    ground (arith, checkbit-flag value 6, zero-bit_and c_spwstr_ls)

link_state-ticked : (r : Registers) (value : ℕ) → link_state (ticked r value) ≡ link_state r
unfolding count_tick
link_state-ticked r value = ground arith

link_state-link_start :
    (r : Registers) (value : ℕ)
    → link_state (link_start r value) ≡ (if bit value 1 then c_spwstr_lsrun else link_state r)
unfolding link_start
link_state-link_start r value =
    ground
      (arith, checkbit-flag value 1, bit_and-deposit r.str c_spwstr_ls c_spwstr_lsrun (omega arith))

link_state-link_disable :
    (r : Registers) (value : ℕ)
    → link_state (link_disable r value) ≡ (if bit value 0 then 0 else link_state r)
unfolding link_disable
link_state-link_disable r value = ground (
  arith,
  checkbit-flag value 0,
  bit_and-deposit r.str c_spwstr_ls 0 (omega arith),
  zero-bit_and c_spwstr_ls,
)

module _ {p : Platform} (grspw_id : ℕ) (r : Registers) (value : ℕ) (h : Host p) where
  -- The link state field after a write of SPWCTR: the reset state where LD is written, else
  -- running where LS is written, else the reset state where RS is written, else as it was.
  pub write_ctr-link_state :
      {r' : Registers} {h' : Host p}
      → write_ctr grspw_id r value h ≡ done (r', h')
      → link_state r' ≡ (
          if bit value 0
          then 0
          else (if bit value 1 then c_spwstr_lsrun else (if bit value 6 then 0 else link_state r)))
  unfolding written_ctr
  write_ctr-link_state e =
      let s = store_ctr grspw_id r value in
      ground (
        arith,
        write_ctr-returns grspw_id r value h e,
        link_state-link_disable (link_start (ticked s value) value) value,
        link_state-link_start (ticked s value) value,
        link_state-ticked s value,
        link_state-store_ctr grspw_id r value,
      )

-- The low six bits as a remainder, bit by bit.
bit-mod64 : (x i : ℕ) → bit (x % 64) i ≡ bit x i && ltb i 6
unfolding bit
bit-mod64 x zero = ground arith
bit-mod64 x (suc zero) = ground arith
bit-mod64 x (suc (suc zero)) = ground arith
bit-mod64 x (suc (suc (suc zero))) = ground arith
bit-mod64 x (suc (suc (suc (suc zero)))) = ground arith
bit-mod64 x (suc (suc (suc (suc (suc zero))))) = ground arith
bit-mod64 x (suc (suc (suc (suc (suc (suc i)))))) =
    let e : x % 64 / 2 / 2 / 2 / 2 / 2 / 2 ≡ 0 = omega arith in rw e (ground (arith, bit-zero i))

-- The bits from the sixth on are those of the quotient.
bit-div64 : (x i : ℕ) → bit (x / 64) i ≡ bit x (suc (suc (suc (suc (suc (suc i))))))
unfolding bit
bit-div64 x i = let e : x / 2 / 2 / 2 / 2 / 2 / 2 ≡ x / 64 = omega arith in rw e refl

deposit_low : (x y : ℕ) → deposit x 0x3f y % 64 ≡ y % 64
deposit_low x y =
    let d = deposit x 0x3f y in
    word_ext (d % 64) (y % 64) (omega arith) (omega arith) λ i h.
      ground (arith, bit-mod64 d i, bit-mod64 y i, bit-deposit x 0x3f y i h, bit-low_mask 6 i)

deposit_high : (x y : ℕ) → IsWord x → deposit x 0x3f y / 64 ≡ x / 64
deposit_high x y w =
    let d = deposit x 0x3f y in
    let b : IsWord d = deposit-IsWord x 0x3f y w (omega arith) in
    word_ext (d / 64) (x / 64) (omega arith) (omega arith) λ i h.
      let j = suc (suc (suc (suc (suc (suc i))))) in
      elim (Bool-cases (ltb j 32)) [
        | inl e ↦ ground (
          arith,
          bit-div64 d i,
          bit-div64 x i,
          bit-deposit x 0x3f y j (ground arith),
          bit-low_mask 6 j,
        )
        | inr e ↦ ground (arith, bit-div64 d i, bit-div64 x i, bit_lt 32 d j b, bit_lt 32 x j w)
      ]

-- The time counter after a tick: the low six bits count, the control flags above stay.
abbrev pub next_tick : ℕ → ℕ
next_tick tim = tim / 64 * 64 + (tim + 1) % 64

tim-count_tick : (r : Registers) → IsWord r.tim → (count_tick r).tim ≡ next_tick r.tim
unfolding count_tick
tim-count_tick r w =
    omega (arith, deposit_low r.tim (u32 (r.tim + 1)), deposit_high r.tim (u32 (r.tim + 1)) w)

-- The time register that the write starts from: 0 where it resets the core.
abbrev pub tim_before : Registers → ℕ → ℕ
tim_before r value = if bit value 6 then 0 else r.tim

tim-store_ctr :
    (grspw_id : ℕ) (r : Registers) (value : ℕ)
    → (store_ctr grspw_id r value).tim ≡ tim_before r value
unfolding store_ctr reset_registers
tim-store_ctr grspw_id r value = ground (arith, checkbit-flag value 6)

tim-written_ctr :
    (grspw_id : ℕ) (r : Registers) (value : ℕ)
    → (written_ctr grspw_id r value).tim ≡ (ticked (store_ctr grspw_id r value) value).tim
unfolding written_ctr link_start link_disable
tim-written_ctr grspw_id r value = ground arith

module _ {p : Platform} (grspw_id : ℕ) (r : Registers) (value : ℕ) (h : Host p) where
  -- A write of SPWCTR whose registers hold words: the time counter counts one tick, modulo 64 and
  -- with the control flags kept, exactly where TI is written, and is 0 before where RS is written.
  -- Where TI is written, the new time code is sent, before the write returns; else nothing is sent.
  pub write_ctr_time_code :
      IsWord r.tim
      → ((written_ctr grspw_id r value).tim
          ≡ (if bit value 4 then next_tick (tim_before r value) else tim_before r value))
        × (write_ctr grspw_id r value h
            ≡ ((if bit value 4
                    then send_spwtimecode grspw_id (u8 (written_ctr grspw_id r value).tim)
                    else pure tt)
                  >>= λ _. pure (written_ctr grspw_id r value))
                h)
  write_ctr_time_code w =
      let s = store_ctr grspw_id r value in
      let t : IsWord s.tim = ground (arith, tim-store_ctr grspw_id r value) in
      (
        ground (
          arith,
          tim-written_ctr grspw_id r value,
          tim-store_ctr grspw_id r value,
          tim-count_tick s t,
          checkbit-flag value 4,
        ),
        ground (
          arith,
          tim-written_ctr grspw_id r value,
          write_ctr_lem grspw_id r value h,
          checkbit-flag value 4,
        ),
      )
