-- ===== src/Com/Transmit.antt =====
-- grlib_comgrspw_txenable: the transmit descriptors, before and after the wait.
use qemu_spacewire.Base.{
  ℕ, zero, suc, ◌+◌, ◌*◌, ◌≤◌, ◌<◌, true, ◌&&◌, List, [], ◌∷◌, none, some, ◌≡◌, refl, ◌∙◌, arith,
  length, false,
}
use qemu_spacewire.Base.Bits.{bit, flag, bit-flag}
use qemu_spacewire.Host.{Platform, Host, Outcome, done, fault, ◌>>=◌}
use qemu_spacewire.Host.Buffer.{prefix, slice, overwrite, overwrite-some, slice-some}
use qemu_spacewire.Util.Mask.{checkbit, clearbit}
use qemu_spacewire.Util.Mask.Bits.{checkbit-flag, bit-clearbit}
use qemu_spacewire.Util.Word.{bytes_of, length-bytes_of}
use qemu_spacewire.Util.Swap.{reverse_words, length-reverse_words}
use qemu_spacewire.Com.{Device, begin_txenable, finish_txenable, txenable, qemu_irq_pulse}
use qemu_spacewire.Util.Ram.{IsSized, read_leon3_ram, read_leon3_ram-swapped}
use qemu_spacewire.Com.Descriptor.{word}
use qemu_spacewire.Com.Valid.{IsValidDevice, written_word, write_word}
use qemu_spacewire.Com.Time.{pulsed_if}

prefix_short : (n : ℕ) (xs : List ℕ) → length xs < n → prefix n xs ≡ none
unfolding prefix
prefix_short zero xs h = absurd (omega arith)
prefix_short (suc n) [] h = refl
prefix_short (suc n) (x ∷ xs) h = rw (prefix_short n xs (omega arith)) refl

slice_short : (i n : ℕ) (xs : List ℕ) → i ≤ length xs → length xs < i + n → slice i n xs ≡ none
unfolding slice
slice_short zero n xs b h = prefix_short n xs (omega arith)
slice_short (suc i) n [] b h = absurd (omega arith)
slice_short (suc i) n (x ∷ xs) b h = slice_short i n xs (omega arith) (omega arith)

-- The array `txd_map` is declared with elements of 8 bytes and holds descriptors of 16 bytes: on a
-- valid device whose transmitter is enabled, the last descriptor of the table, number 63, is read
-- beyond the array, whatever else the device and the guest's memory hold.
pub last_tx_descriptor_faults :
    {p : Platform} (d : Device) (wait : Device → Host p → Outcome (Device × Host p)) (h : Host p)
    → IsValidDevice d
    → bit d.grspw_reg.chn 0 ≡ true
    → d.txd_cur ≡ 63
    → txenable wait d h ≡ fault
unfolding txenable begin_txenable ◌>>=◌
last_tx_descriptor_faults d wait h v te e =
    let s : slice (8 * d.txd_cur) 16 d.txd_map ≡ none =
      slice_short (8 * d.txd_cur) 16 d.txd_map (omega (arith, e, v.txd_map_length))
        (omega (arith, e, v.txd_map_length)) in
    ground (arith, s, te, checkbit-flag d.grspw_reg.chn 0)

finish_txenable_run :
    {p : Platform} (txd_addr cur : ℕ) (d : Device) (descriptor xs : List ℕ) (h : Host p)
    → slice (8 * cur) 16 d.txd_map ≡ some descriptor
    → overwrite d.txd_map (8 * cur) (bytes_of (clearbit (word 0 descriptor) (flag 12))) ≡ some xs
    → finish_txenable txd_addr cur d h
      ≡ done (
        record d { txd_map = xs },
        record (written_word txd_addr (clearbit (word 0 descriptor) (flag 12)) h) {
          irq_pulses =
              pulsed_if
                (checkbit (clearbit (word 0 descriptor) (flag 12)) (flag 14)
                  && bit d.grspw_reg.chn 2)
                d.grspw_id
                h.irq_pulses;
        },
      )
unfolding finish_txenable qemu_irq_pulse ◌>>=◌
finish_txenable_run txd_addr cur d descriptor xs h s e = ground (
  arith,
  s,
  e,
  write_word txd_addr (clearbit (word 0 descriptor) (flag 12)) h,
  checkbit-flag d.grspw_reg.chn 2,
)

-- After the acknowledgement of a descriptor below number 63 on a valid device, grlib_comgrspw_txenable
-- returns. Of the guest's memory it writes only the control word of the descriptor, with the bit EN
-- cleared and in the guest's byte order, at the address the descriptor was read from; it pulses the
-- interrupt of the core exactly if the descriptor asks for it (IE) and SPWCHN allows it (TI); and it
-- leaves the registers and the index of the current descriptor as they are.
pub finish_txenable_lem :
    {p : Platform} (txd_addr cur : ℕ) (d : Device) (descriptor : List ℕ) (h : Host p)
    → IsValidDevice d
    → cur < 63
    → slice (8 * cur) 16 d.txd_map ≡ some descriptor
    → (d' : Device) × (h' : Host p) × (finish_txenable txd_addr cur d h ≡ done (d', h'))
      × (h'.memory
          ≡ p.address_space_write h.memory txd_addr
              (reverse_words (bytes_of (clearbit (word 0 descriptor) (flag 12)))))
      × (h'.irq_pulses
          ≡ pulsed_if
              (checkbit (clearbit (word 0 descriptor) (flag 12)) (flag 14) && bit d.grspw_reg.chn 2)
              d.grspw_id
              h.irq_pulses)
      × (d'.grspw_reg ≡ d.grspw_reg)
      × (d'.txd_cur ≡ d.txd_cur)
      × IsValidDevice d'
finish_txenable_lem {p} txd_addr cur d descriptor h v lt s =
    let ctrl = clearbit (word 0 descriptor) (flag 12) in
    let (xs, e, l) =
      overwrite-some d.txd_map (8 * cur) (bytes_of ctrl)
        (omega (arith, length-bytes_of ctrl, v.txd_map_length)) in
    let irq = checkbit ctrl (flag 14) && bit d.grspw_reg.chn 2 in
    let h₁ = record (written_word txd_addr ctrl h) {
      irq_pulses = pulsed_if irq d.grspw_id h.irq_pulses;
    } in
    (
      record d { txd_map = xs },
      h₁,
      finish_txenable_run txd_addr cur d descriptor xs h s e,
      refl,
      refl,
      refl,
      refl,
      record {
        registers_valid = v.registers_valid;
        rxd_map_length = v.rxd_map_length;
        txd_map_length = l ∙ v.txd_map_length;
        rxd_cur_lt = v.rxd_cur_lt;
        txd_cur_lt = v.txd_cur_lt;
      },
    )

-- The transmit descriptor that SPWTXD points at, in the byte order of the host.
abbrev pub tx_descriptor_at : {p : Platform} → Device → Host p → List ℕ
tx_descriptor_at {p} d h = reverse_words (p.address_space_read h.memory d.grspw_reg.txd 16)

txenable_stop_run :
    {p : Platform} (d : Device) (wait : Device → Host p → Outcome (Device × Host p)) (h : Host p)
    (old xs : List ℕ)
    → bit d.grspw_reg.chn 0 ≡ true
    → slice (8 * d.txd_cur) 16 d.txd_map ≡ some old
    → read_leon3_ram d.grspw_reg.txd old 16 true h ≡ done (tx_descriptor_at d h, h)
    → overwrite d.txd_map (8 * d.txd_cur) (tx_descriptor_at d h) ≡ some xs
    → checkbit (word 0 (tx_descriptor_at d h)) (flag 12) ≡ false
    → txenable wait d h
      ≡ done (
        (
          true,
          record d {
            txd_map = xs;
            grspw_reg = record d.grspw_reg { chn = clearbit d.grspw_reg.chn (flag 0) };
          },
        ),
        h,
      )
unfolding txenable begin_txenable ◌>>=◌
txenable_stop_run d wait h old xs te s r o en =
    ground (arith, te, s, r, o, en, checkbit-flag d.grspw_reg.chn 0)

-- The transmission comes to its end: on a valid device whose transmitter is enabled (TE), at a
-- descriptor below number 63 whose bit EN is '0', and where a read of the guest's memory gives the
-- bytes that were asked for, grlib_comgrspw_txenable returns at once with `stop`, without a wait. It
-- clears TE, so that a second call does nothing but stop; and it sends nothing, pulses no interrupt and
-- writes nothing to the guest's memory, neither in the first call nor in the second.
pub txenable_stops :
    {p : Platform} (d : Device) (wait : Device → Host p → Outcome (Device × Host p)) (h : Host p)
    → IsSized p
    → IsValidDevice d
    → d.txd_cur < 63
    → bit d.grspw_reg.chn 0 ≡ true
    → bit (word 0 (tx_descriptor_at d h)) 12 ≡ false
    → (d' : Device) × (txenable wait d h ≡ done ((true, d'), h))
      × (txenable wait d' h ≡ done ((true, d'), h))
      × (d'.grspw_reg ≡ record d.grspw_reg { chn = clearbit d.grspw_reg.chn (flag 0) })
unfolding txenable begin_txenable ◌>>=◌
txenable_stops {p} d wait h m v lt te en =
    let guest = p.address_space_read h.memory d.grspw_reg.txd 16 in
    let sized = m.sized h.memory d.grspw_reg.txd 16 in
    let (old, s, l) =
      slice-some (8 * d.txd_cur) 16 d.txd_map (omega (arith, v.txd_map_length, lt)) in
    let (xs, o, k) =
      overwrite-some d.txd_map (8 * d.txd_cur) (tx_descriptor_at d h)
        (omega (arith, v.txd_map_length, lt, length-reverse_words guest, sized)) in
    let r =
      read_leon3_ram-swapped d.grspw_reg.txd 16 old guest h refl sized l (omega arith)
        (ground arith) in
    let chn = clearbit d.grspw_reg.chn (flag 0) in
    (
      record d { txd_map = xs; grspw_reg = record d.grspw_reg { chn = chn } },
      txenable_stop_run d wait h old xs te s r o (checkbit-flag _ 12 ∙ en),
      ground (
        arith,
        checkbit-flag chn 0,
        bit-clearbit d.grspw_reg.chn (flag 0) 0 (omega arith),
        bit-flag 0 0,
      ),
      refl,
    )
