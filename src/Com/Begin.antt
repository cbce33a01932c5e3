-- ===== src/Com/Begin.antt =====
-- grlib_comgrspw_txenable up to its wait, and grlib_comgrspw_rxtimecode: what they leave is valid.
use qemu_spacewire.Base.{ℕ, ◌*◌, ◌<◌, ◌≡◌, refl, ◌∙◌, arith, List, length, ltb}
use qemu_spacewire.Host.{Platform}
use qemu_spacewire.Host.Always.{Always, Always-pure, Always-bind, Always-if}
use qemu_spacewire.Host.Ensures.{
  Ensures, Ensures-pure, Ensures-bind, Ensures-if, Ensures-or_fault, Ensures-Anything,
  Ensures-of_Always,
}
use qemu_spacewire.Host.Buffer.{slice, overwrite, slice_bound, length-overwrite, slice-some}
use qemu_spacewire.Base.Bits.{flag, bit-low_mask, bit_lt}
use qemu_spacewire.Base.Within.{Within-of_bit_and, Within}
use qemu_spacewire.Util.Mask.{checkbit, setbit, clearbit}
use qemu_spacewire.Util.Mask.Keeps.{Within-setbit, Within-clearbit, Within-deposit}
use qemu_spacewire.Util.Word.{u32}
use qemu_spacewire.Util.Ram.{IsSized}
use qemu_spacewire.Reg.{Registers}
use qemu_spacewire.Reg.Valid.{IsValid}
use qemu_spacewire.Com.{
  Device, TxState, waiting, stopped, sent_registers, begin_txenable, send_by_descriptor,
  finish_txenable, rxtimecode, word,
}
use qemu_spacewire.Com.Valid.{
  IsValidDevice, next_descriptor_lt, Always-when, Always-qemu_irq_pulse, Always-read_descriptor,
}
use qemu_spacewire.Com.Transmit.{finish_txenable_lem}

sent_registers-IsValid : (r : Registers) (cur : ℕ) → IsValid r → IsValid (sent_registers r cur)
unfolding sent_registers
sent_registers-IsValid r cur v = assumption (
  Within-setbit r.chn (flag 5) 0 0x1_1dff v.chn_fits
      (Within-of_bit_and (flag 5) _ (unfold flag in refl)),
  Within-deposit r.txd 0x3f0 (u32 (cur * 16)) 0xffff_fff0 v.txd_fits
      (Within-of_bit_and 0x3f0 _ refl),
)

-- Where the code waits, its descriptor is below the last one.
abbrev pub IsWithin : TxState → Type 0
IsWithin stopped = Unit {0}
IsWithin (waiting txd_addr txd_cur) = txd_cur < 63

-- The device with a descriptor stored in `txd_map`.
pub with_txd_map :
    (d : Device) (xs : List ℕ)
    → IsValidDevice d
    → length xs ≡ length d.txd_map
    → IsValidDevice (record d { txd_map = xs })
with_txd_map d xs v l = record {
  registers_valid = v.registers_valid;
  rxd_map_length = v.rxd_map_length;
  txd_map_length = l ∙ v.txd_map_length;
  rxd_cur_lt = v.rxd_cur_lt;
  txd_cur_lt = v.txd_cur_lt;
}

-- The device with other registers.
pub with_registers :
    (d : Device) (r : Registers)
    → IsValidDevice d
    → IsValid r
    → IsValidDevice (record d { grspw_reg = r })
with_registers d r v w = record {
  registers_valid = w;
  rxd_map_length = v.rxd_map_length;
  txd_map_length = v.txd_map_length;
  rxd_cur_lt = v.rxd_cur_lt;
  txd_cur_lt = v.txd_cur_lt;
}

byte-Within : (x : ℕ) → x < 256 → Within x 0xff
byte-Within x lt = record { bits = λ i e. ground (arith, bit-low_mask 8 i, bit_lt 8 x i lt e) }

timed-IsValid :
    (d : Device) (timecode : ℕ)
    → IsValidDevice d
    → timecode < 256
    → IsValidDevice (record d {
      grspw_reg = record d.grspw_reg { tim = timecode; str = setbit d.grspw_reg.str (flag 0) };
    })
timed-IsValid d timecode v lt = with_registers d _ v (
    assumption (
      v.registers_valid,
      Within-setbit d.grspw_reg.str (flag 0) 0 0xe0_01df v.registers_valid.str_fits
          (Within-of_bit_and (flag 0) _ (unfold flag in refl)),
      byte-Within timecode lt,
    ))

abbrev pub BeginsWell : TxState × Device → Type 0
BeginsWell r = IsWithin r.0 × IsValidDevice r.1

stopped-IsValid :
    (d : Device)
    → IsValidDevice d
    → IsValidDevice
        (record d { grspw_reg = record d.grspw_reg { chn = clearbit d.grspw_reg.chn (flag 0) } })
stopped-IsValid d v = with_registers d _ v (
    assumption
      (v.registers_valid, Within-clearbit d.grspw_reg.chn (flag 0) 0 _ v.registers_valid.chn_fits))

module _ {p : Platform} where
  pub send_by_descriptor-BeginsWell :
      (d : Device) (descriptor : List ℕ)
      → IsValidDevice d
      → d.txd_cur < 63
      → Ensures BeginsWell (send_by_descriptor {p = p} d descriptor)
  unfolding send_by_descriptor
  send_by_descriptor-BeginsWell d descriptor v lt = Ensures-bind (Ensures-Anything _) λ payload _.
      Ensures-bind (Ensures-Anything _) λ header _. Ensures-bind (Ensures-Anything _) λ _ _.
        Ensures-pure _ (
          lt,
          record {
            registers_valid = sent_registers-IsValid d.grspw_reg _ v.registers_valid;
            rxd_map_length = v.rxd_map_length;
            txd_map_length = v.txd_map_length;
            rxd_cur_lt = v.rxd_cur_lt;
            txd_cur_lt = next_descriptor_lt _ d.txd_cur 64 (omega arith);
          },
        )

  -- On a valid device: wherever grlib_comgrspw_txenable gets to its wait or to its end, the device is
  -- valid, and the descriptor that it waits for is below the last one.
  pub begin_txenable-BeginsWell :
      (d : Device) → IsSized p → IsValidDevice d → Ensures BeginsWell (begin_txenable {p = p} d)
  unfolding begin_txenable
  begin_txenable-BeginsWell d m v =
      Ensures-if (checkbit d.grspw_reg.chn (flag 0))
        (λ _.
          Ensures-bind {Q = λ (old : List ℕ). (length old ≡ 16) × (d.txd_cur < 63)}
            (Ensures-or_fault (slice (8 * d.txd_cur) 16 d.txd_map) λ old e.
              let (b, l) = slice_bound (8 * d.txd_cur) 16 d.txd_map old e in
              (l, omega (arith, b (omega arith), v.txd_map_length)))
            λ old (l, lt).
              Ensures-bind
                (Ensures-of_Always
                  (Always-read_descriptor _ old 16 m l (omega arith) (ground arith)))
                λ bytes k.
                  Ensures-bind {Q = λ (xs : List ℕ). length xs ≡ length d.txd_map}
                    (Ensures-or_fault (overwrite d.txd_map (8 * d.txd_cur) bytes)
                      λ xs e. length-overwrite d.txd_map (8 * d.txd_cur) bytes xs e)
                    λ xs e.
                      let w = with_txd_map d xs v e in
                      Ensures-if (checkbit (word 0 bytes) (flag 12))
                        (λ _. send_by_descriptor-BeginsWell _ bytes w lt)
                        (λ _. Ensures-pure _ (tt, stopped-IsValid _ w)))
        (λ _. Ensures-pure _ (tt, v))

  -- After the wait, the code always returns.
  pub finish_txenable-IsValid :
      (txd_addr cur : ℕ) (d : Device)
      → IsValidDevice d
      → cur < 63
      → Always IsValidDevice (finish_txenable {p = p} txd_addr cur d)
  finish_txenable-IsValid txd_addr cur d v lt = record {
    returns = λ h.
        let (descriptor, s, _) =
          slice-some (8 * cur) 16 d.txd_map (omega (arith, v.txd_map_length, lt)) in
        let (d', h', run, _, _, _, _, w) = finish_txenable_lem txd_addr cur d descriptor h v lt s in
        (d', h', run, w);
  }

  pub rxtimecode-IsValid :
      (d : Device) (timecode : ℕ)
      → IsValidDevice d
      → timecode < 256
      → Always IsValidDevice (rxtimecode {p = p} d timecode)
  unfolding rxtimecode
  rxtimecode-IsValid d timecode v lt =
      Always-if (ltb d.grspw_reg.tim timecode)
        (λ _.
          Always-bind (Always-when _ (Always-qemu_irq_pulse _))
            λ _ _. Always-pure _ (timed-IsValid d timecode v lt))
        (λ _. Always-pure d v)
