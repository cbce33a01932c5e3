-- ===== src/Com/Used.antt =====
-- The bits of a used descriptor and of the registers after a packet, one by one.
use qemu_spacewire.Base.{
  ℕ, zero, suc, ◌*◌, ◌%◌, ◌/◌, ◌^◌, ◌<◌, ◌≡◌, refl, arith, Bool, true, false, not, ◌&&◌, ◌||◌, ltb,
  ◌==◌, if◌then◌else◌,
}
use native.Mathlib.Nat.{pow-suc}
use qemu_spacewire.Base.Bits.{bit, flag, bit-flag, bit-low_mask, bit-zero}
use qemu_spacewire.Util.Mask.{setbit, deposit}
use qemu_spacewire.Util.Mask.Bits.{bit-setbit, bit-clearbit, bit-deposit}
use qemu_spacewire.Util.Word.{u32}
use qemu_spacewire.Reg.{Registers}
use qemu_spacewire.Com.{
  RecvAtt, set_status, used_descriptor, next_descriptor, received_registers, sent_registers,
  of_bool,
}
use qemu_spacewire.Com.Descriptor.{c_spwtrw0_packet_length}

-- Bit `i` of the control word of a receive descriptor when a packet of `length` bytes was stored: the
-- length in the 25 lowest bits, EN (25) cleared, WR (26), IE (27) and the others kept but for the status bits,
-- which the truncation (TR, 31) and the attributes (DC, 30, HC, 29, EP, 28) set.
abbrev pub used_bit : ℕ → Bool → RecvAtt → ℕ → ℕ → Bool
used_bit ctrl cut att length i =
    if ltb i 25
    then bit length i
    else not (i == 25)
      && (bit ctrl i
          || (cut && (i == 31))
          || bit (u32 (att.dc * 2 ^ 30)) i
          || bit (u32 (att.hc * 2 ^ 29)) i
          || bit (u32 (att.ep * 2 ^ 28)) i)

double : (n b : ℕ) → 2 ^ suc n * b ≡ 2 * (2 ^ n * b)
double n b = rw (pow-suc 2 n) (omega arith)

bit_multiple : (n b i : ℕ) → i < n → bit (2 ^ n * b) i ≡ false
unfolding bit
bit_multiple zero b i lt = absurd (omega arith)
bit_multiple (suc n) b zero lt = ground (arith, double n b)
bit_multiple (suc n) b (suc i) lt =
    let e : 2 ^ suc n * b / 2 ≡ 2 ^ n * b = omega (arith, double n b) in
    rw e (bit_multiple n b i (omega arith))

-- An attribute does not reach IE and WR.
status_low : (a i : ℕ) → i < 28 → bit (u32 (a * 2 ^ 28)) i ≡ false
status_low a i lt =
    let e : u32 (a * 2 ^ 28) ≡ 2 ^ 28 * (a % 16) = omega arith in
    rw e (bit_multiple 28 (a % 16) i lt)

bit-truncated : (cut : Bool) (i : ℕ) → bit (u32 (of_bool cut * flag 31)) i ≡ cut && (i == 31)
unfolding flag
bit-truncated true i = bit-flag 31 i
bit-truncated false i = bit-zero i

att_flag : (a k : ℕ) → a * flag k ≡ a * 2 ^ k
unfolding flag
att_flag a k = refl

two : (a : ℕ) → u32 (a * 2 ^ 29) ≡ u32 (a * 2 * 2 ^ 28)
two a = omega arith

four : (a : ℕ) → u32 (a * 2 ^ 30) ≡ u32 (a * 4 * 2 ^ 28)
four a = omega arith

pub bit-used_descriptor :
    (ctrl length i : ℕ) (cut : Bool) (att : RecvAtt)
    → i < 32
    → bit (used_descriptor ctrl cut att length) i ≡ used_bit ctrl cut att length i
unfolding used_descriptor set_status
bit-used_descriptor ctrl length i cut att lt =
    let t₁ = u32 (of_bool cut * flag 31) in
    let t₂ = u32 (att.dc * flag 30) in
    let t₃ = u32 (att.hc * flag 29) in
    let t₄ = u32 (att.ep * flag 28) in
    let s₁ = setbit ctrl t₁ in
    let s₂ = setbit s₁ t₂ in
    let s₃ = setbit s₂ t₃ in
    let s₄ = setbit s₃ t₄ in
    ground (
      arith,
      bit-clearbit (deposit s₄ c_spwtrw0_packet_length length) (flag 25) i lt,
      bit-flag 25 i,
      bit-deposit s₄ c_spwtrw0_packet_length length i lt,
      bit-low_mask 25 i,
      bit-setbit s₃ t₄ i,
      bit-setbit s₂ t₃ i,
      bit-setbit s₁ t₂ i,
      bit-setbit ctrl t₁ i,
      bit-truncated cut i,
      att_flag att.dc 30,
      att_flag att.hc 29,
      att_flag att.ep 28,
    )

-- IE and WR are kept.
pub used_descriptor-kept :
    (ctrl length i : ℕ) (cut : Bool) (att : RecvAtt)
    → 25 < i
    → i < 28
    → bit (used_descriptor ctrl cut att length) i ≡ bit ctrl i
used_descriptor-kept ctrl length i cut att lo hi = ground (
  arith,
  bit-used_descriptor ctrl length i cut att (omega arith),
  status_low (att.dc * 4) i hi,
  status_low (att.hc * 2) i hi,
  status_low att.ep i hi,
  four att.dc,
  two att.hc,
)

-- The index of the next descriptor, in the receive and in the transmit table.
pub next_rx :
    (wrap : Bool) (cur : ℕ)
    → cur < 128
    → next_descriptor wrap cur 128 ≡ (if wrap || (cur == 127) then 0 else suc cur)
unfolding next_descriptor
next_rx true cur lt = refl
next_rx false cur lt = ground arith

pub next_tx :
    (wrap : Bool) (cur : ℕ)
    → cur < 64
    → next_descriptor wrap cur 64 ≡ (if wrap || (cur == 63) then 0 else suc cur)
unfolding next_descriptor
next_tx true cur lt = refl
next_tx false cur lt = ground arith

-- The registers when a packet was received: PR is set, EE where the attribute EP is set, and the
-- selector in SPWRXD is the index.
pub received_registers-bits :
    (r : Registers) (att : RecvAtt) (cur i : ℕ)
    → i < 32
    → (bit (received_registers r att cur).chn i ≡ bit r.chn i || (i == 6))
      × (bit (received_registers r att cur).str i ≡ bit r.str i || ((i == 8) && not (att.ep == 0)))
      × (bit (received_registers r att cur).rxd i
          ≡ (if bit 0x3f8 i then bit (u32 (cur * 8)) i else bit r.rxd i))
unfolding received_registers
received_registers-bits r att cur i lt = (
  ground (arith, bit-setbit r.chn (flag 6) i, bit-flag 6 i),
  ground (arith, bit-setbit r.str (flag 8) i, bit-flag 8 i),
  bit-deposit r.rxd 0x3f8 (u32 (cur * 8)) i lt,
)

-- The registers when a packet was sent: PS is set, and the selector in SPWTXD is the index.
pub sent_registers-bits :
    (r : Registers) (cur i : ℕ)
    → i < 32
    → (bit (sent_registers r cur).chn i ≡ bit r.chn i || (i == 5))
      × (bit (sent_registers r cur).txd i
          ≡ (if bit 0x3f0 i then bit (u32 (cur * 16)) i else bit r.txd i))
unfolding sent_registers
sent_registers-bits r cur i lt = (
  ground (arith, bit-setbit r.chn (flag 5) i, bit-flag 5 i),
  bit-deposit r.txd 0x3f0 (u32 (cur * 16)) i lt,
)

-- No other register changes.
pub received_registers_frame :
    (r : Registers) (att : RecvAtt) (cur : ℕ)
    → received_registers r att cur ≡ record r {
      chn = (received_registers r att cur).chn;
      str = (received_registers r att cur).str;
      rxd = (received_registers r att cur).rxd;
    }
unfolding received_registers
received_registers_frame r att cur = refl

pub sent_registers_frame :
    (r : Registers) (cur : ℕ)
    → sent_registers r cur
      ≡ record r { chn = (sent_registers r cur).chn; txd = (sent_registers r cur).txd }
unfolding sent_registers
sent_registers_frame r cur = refl
