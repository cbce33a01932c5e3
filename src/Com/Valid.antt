-- ===== src/Com/Valid.antt =====
-- What a device of grspw/grlib_comgrspw.h holds between two operations, and the parts of an operation
-- on the guest's memory.
use qemu_spacewire.Base.{
  ℕ, zero, suc, ◌+◌, ◌*◌, ◌%◌, ◌≤◌, ◌<◌, Bool, true, false, List, ◌≡◌, refl, ◌∙◌, arith, length,
  ◌==◌, ◌≢◌,
}
use qemu_spacewire.Base.Bits.{flag}
use qemu_spacewire.Base.Within.{Within-if, Within-of_bit_and}
use qemu_spacewire.Host.{Platform, Host, M, done, or_fault}
use qemu_spacewire.Host.Always.{
  Always, Anything, Always-pure, Always-bind, Always-if, Always-or_fault,
}
use qemu_spacewire.Host.Buffer.{slice, overwrite, prefix-some, slice-some, overwrite-some}
use qemu_spacewire.Util.Word.{bytes_of, length-bytes_of, u32}
use qemu_spacewire.Util.Mask.{setbit}
use qemu_spacewire.Util.Mask.Keeps.{Within-setbit, Within-deposit}
use qemu_spacewire.Util.Ram.{
  IsSized, write_leon3_ram, read_leon3_ram, write_leon3_ram-swapped, read_leon3_ram-swapped,
  address_space_write,
}
use qemu_spacewire.Util.Swap.{reverse_words, length-reverse_words}
use qemu_spacewire.Reg.{Registers}
use qemu_spacewire.Reg.Valid.{IsValid}
use qemu_spacewire.Com.{Device, RecvAtt, next_descriptor, received_registers, when, qemu_irq_pulse}

-- The registers are valid, the two arrays have their sizes in bytes, and the indices of the current
-- descriptors are within them.
pub record IsValidDevice (d : Device) : Type 0 where
  pub registers_valid : IsValid d.grspw_reg
  pub rxd_map_length : length d.rxd_map ≡ 1024
  pub txd_map_length : length d.txd_map ≡ 512
  pub rxd_cur_lt : d.rxd_cur < 128
  pub txd_cur_lt : d.txd_cur < 64

pub next_descriptor_lt :
    (wrap : Bool) (cur count : ℕ) → 0 < count → next_descriptor wrap cur count < count
unfolding next_descriptor
next_descriptor_lt true cur count h = h
next_descriptor_lt false cur zero h = absurd (omega arith)
next_descriptor_lt false cur (suc n) h = omega arith

pub received_registers-IsValid :
    (r : Registers) (att : RecvAtt) (cur : ℕ) → IsValid r → IsValid (received_registers r att cur)
unfolding received_registers
received_registers-IsValid r att cur v = assumption (
  Within-if (att.ep == 0) r.str (setbit r.str (flag 8)) 0xe0_01df v.str_fits (
      Within-setbit r.str (flag 8) 0 0xe0_01df v.str_fits
        (Within-of_bit_and (flag 8) _ (unfold flag in refl))),
  Within-setbit r.chn (flag 6) 0 0x1_1dff v.chn_fits
      (Within-of_bit_and (flag 6) _ (unfold flag in refl)),
  Within-deposit r.rxd 0x3f8 (u32 (cur * 8)) 0xffff_fff8 v.rxd_fits
      (Within-of_bit_and 0x3f8 _ refl),
)

module _ {p : Platform} where
  pub Always-when : (b : Bool) {m : M p (Unit {0})} → Always Anything m → Always Anything (when b m)
  Always-when b s = Always-if b (λ e. s) (λ e. Always-pure tt tt)

  pub Always-qemu_irq_pulse : (line : ℕ) → Always Anything (qemu_irq_pulse {p = p} line)
  unfolding qemu_irq_pulse
  Always-qemu_irq_pulse line = record { returns = λ h. (tt, _, refl, tt) }

  abbrev pub written_word : ℕ → ℕ → Host p → Host p
  written_word addr word h = record h {
    memory = p.address_space_write h.memory addr (reverse_words (bytes_of word));
  }

  pub write_word :
      (addr word : ℕ) (h : Host p)
      → write_leon3_ram addr (bytes_of word) 4 true h ≡ done (tt, written_word addr word h)
  write_word addr word h =
      let l = length-bytes_of word in
      let e : write_leon3_ram addr (bytes_of word) (length (bytes_of word)) true h
          ≡ done (tt, written_word addr word h) =
        write_leon3_ram-swapped addr (bytes_of word) h (omega (arith, l)) (ground (arith, l)) in
      rw l at e

  -- A descriptor's control word, written in the guest's byte order.
  pub Always-write_word :
      (addr word : ℕ) → Always Anything (write_leon3_ram {p = p} addr (bytes_of word) 4 true)
  Always-write_word addr word = record { returns = λ h. (tt, _, write_word addr word h, tt) }

  pub Always-write_straight :
      (addr : ℕ) (bytes : List ℕ) (len : ℕ)
      → len ≤ length bytes
      → Always Anything (write_leon3_ram {p = p} addr bytes len false)
  unfolding write_leon3_ram address_space_write
  Always-write_straight addr bytes len b =
      let (front, e, l) = prefix-some len bytes b in
      Always-bind {Q = Anything} (Always-or_fault (front, e, tt))
        λ tmp q. record { returns = λ h. (tt, _, refl, tt) }

  -- A descriptor, read in the guest's byte order, has the size of its array element.
  pub Always-read_descriptor :
      (addr : ℕ) (old : List ℕ) (len : ℕ)
      → IsSized p
      → length old ≡ len
      → len < 0x8000_0000
      → len % 4 ≢ 2
      → Always (λ (bytes : List ℕ). length bytes ≡ len) (read_leon3_ram {p = p} addr old len true)
  Always-read_descriptor addr old len m l b w = record {
    returns = λ h.
        let bytes = p.address_space_read h.memory addr len in
        let s = m.sized h.memory addr len in
        (
          _,
          h,
          read_leon3_ram-swapped addr len old bytes h refl s l b w,
          length-reverse_words bytes ∙ s,
        );
  }

  -- `n` bytes of an array at offset `i`, and a store at it.
  pub Always-slice :
      (i n : ℕ) (xs : List ℕ)
      → i + n ≤ length xs
      → Always (λ (ys : List ℕ). length ys ≡ n) (or_fault {p = p} (slice i n xs))
  Always-slice i n xs b = Always-or_fault (slice-some i n xs b)

  pub Always-overwrite :
      (xs : List ℕ) (i : ℕ) (src : List ℕ)
      → i + length src ≤ length xs
      → Always (λ (ys : List ℕ). length ys ≡ length xs) (or_fault {p = p} (overwrite xs i src))
  Always-overwrite xs i src b = Always-or_fault (overwrite-some xs i src b)
