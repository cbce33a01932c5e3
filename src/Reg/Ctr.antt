-- ===== src/Reg/Ctr.antt =====
-- grlib_reggrspw_write_ctr: the control register bit by bit, the link state and the time counter.
use qemu_spacewire.Base.{
  ℕ, ◌<◌, Bool, false, not, ◌&&◌, ◌||◌, ◌≡◌, arith, bit_and, ◌==◌, if◌then◌else◌,
}
use qemu_spacewire.Base.Bits.{bit, flag, bit-bit_and, bit-bit_or, bit-flag}
use qemu_spacewire.Host.{Platform, Host, done, pure, ◌>>=◌}
use qemu_spacewire.Util.Word.{u8}
use qemu_spacewire.Util.Mask.{checkbit, setbit, clearbit, deposit}
use qemu_spacewire.Util.Mask.Bits.{bit-setbit, bit-clearbit, bit-deposit, checkbit-flag}
use qemu_spacewire.Mq.{send_spwtimecode}
use qemu_spacewire.Reg.{
  Registers, store_ctr, count_tick, link_start, link_disable, tick_in, write_ctr,
}
use qemu_spacewire.Reg.Masks.{c_spwctr_ti}

-- The registers after the Tick In part, with no regard to the message.
abbrev pub ticked : Registers → ℕ → Registers
ticked r value =
    if checkbit value c_spwctr_ti
    then record (count_tick r) { ctr = clearbit (count_tick r).ctr c_spwctr_ti }
    else r

-- The registers that a write of the control register leaves.
unfoldable pub written_ctr : ℕ → Registers → ℕ → Registers
written_ctr grspw_id r value =
    link_disable (link_start (ticked (store_ctr grspw_id r value) value) value) value

-- The time code that the write sends.
abbrev pub sent_tick : ℕ → Registers → ℕ → ℕ
sent_tick grspw_id r value = u8 (count_tick (store_ctr grspw_id r value)).tim

module _ {p : Platform} (grspw_id : ℕ) (r : Registers) (value : ℕ) (h : Host p) where
  pub write_ctr_lem :
      write_ctr grspw_id r value h
      ≡ ((if checkbit value c_spwctr_ti
              then send_spwtimecode grspw_id (sent_tick grspw_id r value)
              else pure tt)
            >>= λ _. pure (written_ctr grspw_id r value))
          h
  unfolding write_ctr tick_in written_ctr ◌>>=◌
  write_ctr_lem = ground arith

-- The masks of the writable bits, with and without the self-clearing ones.
abbrev pub writable_ctr : ℕ
writable_ctr = 0x3_0f7f

pub bit-store_ctr :
    (grspw_id : ℕ) (r : Registers) (value i : ℕ)
    → i < 32
    → bit value 6 ≡ false
    → bit (store_ctr grspw_id r value).ctr i ≡ bit r.ctr i || (bit value i && bit writable_ctr i)
unfolding store_ctr
bit-store_ctr grspw_id r value i h rs = ground (
  arith,
  checkbit-flag value 6,
  bit-bit_or (deposit r.ctr 0x3_0f2f value) (setbit r.ctr (bit_and value 0x50)) i,
  bit-deposit r.ctr 0x3_0f2f value i h,
  bit-setbit r.ctr (bit_and value 0x50) i,
  bit-bit_and value 0x50 i,
  bit-bit_or 0x3_0f2f 0x50 i,
)

bit-link_start :
    (r : Registers) (value i : ℕ)
    → i < 32
    → bit (link_start r value).ctr i ≡ bit r.ctr i && not (bit value 1 && (i == 0))
unfolding link_start
bit-link_start r value i h =
    ground (arith, checkbit-flag value 1, bit-clearbit r.ctr (flag 0) i h, bit-flag 0 i)

bit-link_disable :
    (r : Registers) (value i : ℕ)
    → i < 32
    → bit (link_disable r value).ctr i ≡ bit r.ctr i && not (bit value 0 && (i == 1))
unfolding link_disable
bit-link_disable r value i h =
    ground (arith, checkbit-flag value 0, bit-clearbit r.ctr (flag 1) i h, bit-flag 1 i)

bit-ticked :
    (r : Registers) (value i : ℕ)
    → i < 32
    → bit (ticked r value).ctr i ≡ bit r.ctr i && not (bit value 4 && (i == 4))
unfolding count_tick
bit-ticked r value i h =
    ground (arith, checkbit-flag value 4, bit-clearbit r.ctr (flag 4) i h, bit-flag 4 i)

-- What the last three parts clear: TI, LD and LS, each where the value asks for it.
abbrev pub kept_ctr : ℕ → ℕ → Bool
kept_ctr value i =
    not (bit value 4 && (i == 4)) && not (bit value 1 && (i == 0)) && not (bit value 0 && (i == 1))

pub bit-written_ctr :
    (grspw_id : ℕ) (r : Registers) (value i : ℕ)
    → i < 32
    → bit (written_ctr grspw_id r value).ctr i
      ≡ bit (store_ctr grspw_id r value).ctr i && kept_ctr value i
unfolding written_ctr
bit-written_ctr grspw_id r value i h =
    let s = store_ctr grspw_id r value in
    ground (
      arith,
      bit-ticked s value i h,
      bit-link_start (ticked s value) value i h,
      bit-link_disable (link_start (ticked s value) value) value i h,
    )

module _ {p : Platform} (grspw_id : ℕ) (r : Registers) (value : ℕ) (h : Host p) where
  -- Whatever the write returns, it returns these registers.
  pub write_ctr-returns :
      {r' : Registers} {h' : Host p}
      → write_ctr grspw_id r value h ≡ done (r', h')
      → r' ≡ written_ctr grspw_id r value
  unfolding ◌>>=◌
  write_ctr-returns e = ground (arith, write_ctr_lem grspw_id r value h)

  -- A write of SPWCTR that does not ask for a reset: each bit of the new register is the old bit,
  -- or the bit written where it is writable, except that TI is cleared when it is written, LD is
  -- cleared when LS is written, and LS is cleared when LD is written. So no write without a reset
  -- clears any bit but TI, LD and LS.
  pub write_ctr_bits :
      {r' : Registers} {h' : Host p} (i : ℕ)
      → i < 32
      → bit value 6 ≡ false
      → write_ctr grspw_id r value h ≡ done (r', h')
      → bit r'.ctr i ≡ (bit r.ctr i || (bit value i && bit writable_ctr i)) && kept_ctr value i
  write_ctr_bits i lt rs e = ground (
    arith,
    write_ctr-returns e,
    bit-store_ctr grspw_id r value i lt rs,
    bit-written_ctr grspw_id r value i lt,
  )
