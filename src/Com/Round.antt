-- ===== src/Com/Round.antt =====
-- One call of grlib_comgrspw_txenable in the loop of the transmit thread: how it ends, and what it does
-- to the table of descriptors.
use qemu_spacewire.Base.{
  ℕ, ◌+◌, ◌*◌, ◌^◌, ◌≤◌, ◌<◌, ◌≡◌, ◌≢◌, refl, sym, ◌∙◌, ap, arith, Bool, true, false, List, length,
  inl, inr,
}
use qemu_spacewire.Base.Bits.{bit, flag}
use qemu_spacewire.Host.{Platform, Host, M, Outcome, done, fatal, fault, pure, ◌>>=◌}
use qemu_spacewire.Host.Bind.{bind-done, done-bind}
use qemu_spacewire.Host.Buffer.{slice-some}
use qemu_spacewire.Util.Mask.{clearbit, deposit}
use qemu_spacewire.Util.Ram.{IsSized}
use qemu_spacewire.Util.Swap.{reverse_words, length-reverse_words}
use qemu_spacewire.Util.Word.{bytes_of, length-bytes_of, u32}
use qemu_spacewire.Com.{
  Device, sent_registers, begin_txenable, send_by_descriptor, finish_txenable, txenable,
}
use qemu_spacewire.Com.Descriptor.{word}
use qemu_spacewire.Com.Valid.{IsValidDevice}
use qemu_spacewire.Com.Begin.{send_by_descriptor-BeginsWell, with_txd_map}
use qemu_spacewire.Com.Table.{
  IsRam, is_enabled, is_enabled-other, is_enabled-cleared, deposit-index,
}
use qemu_spacewire.Com.Sends.{send_by_descriptor-Ensures, send_by_descriptor-Keeps, txenable-cases}
use qemu_spacewire.Com.Emit.{emitted}
use qemu_spacewire.Com.Transmit.{tx_descriptor_at, finish_txenable_lem}

-- The device is valid, and SPWTXD holds the address of its current descriptor in the table at
-- `1024 * q`.
pub record IsReady (q : ℕ) (d : Device) : Type 0 where
  pub device_valid : IsValidDevice d
  pub in_table : d.grspw_reg.txd ≡ 1024 * q + 16 * d.txd_cur

module _ {p : Platform} where
  -- What the other threads do during the wait: they leave the device valid, its place in the table and
  -- the descriptors of the table.
  pub record Waits (is_enabled : p.Memory → ℕ → Bool) (wait : Device → M p Device) : Type 0 where
    pub waits :
        (d d' : Device) (h h' : Host p)
        → wait d h ≡ done (d', h')
        → IsValidDevice d
        → IsValidDevice d'
          × (d'.grspw_reg.txd ≡ d.grspw_reg.txd)
          × (d'.txd_cur ≡ d.txd_cur)
          × ((j : ℕ) → j < 64 → is_enabled h'.memory j ≡ is_enabled h.memory j)

  module _ (m : IsSized p) (byte : p.Memory → ℕ → ℕ) (ram : IsRam p byte) (q : ℕ)
      (room : 1024 * q + 1024 ≤ 2 ^ 32) (wait : Device → M p Device)
      (w : Waits (is_enabled p (1024 * q)) wait) where
    -- A descriptor of the table, in a memory.
    abbrev pub en : p.Memory → ℕ → Bool
    en = is_enabled p (1024 * q)

    -- What a call that sent the packet of descriptor `cur` leaves: it alone is disabled.
    abbrev pub Disables : ℕ → p.Memory → p.Memory → Type 0
    Disables cur memory memory' =
        (cur < 64)
        × (en memory cur ≡ true)
        × (en memory' cur ≡ false)
        × ((j : ℕ) → j < 64 → j ≢ cur → en memory' j ≡ en memory j)

    finish-Disables :
        (cur : ℕ) (d d' : Device) (h h' : Host p)
        → IsValidDevice d
        → cur < 63
        → finish_txenable (1024 * q + 16 * cur) cur d h ≡ done (d', h')
        → (en h'.memory cur ≡ false)
          × ((j : ℕ) → j ≢ cur → en h'.memory j ≡ en h.memory j)
          × IsValidDevice d'
          × (d'.grspw_reg ≡ d.grspw_reg)
          × (d'.txd_cur ≡ d.txd_cur)
    finish-Disables cur d d' h h' v lt e =
        let (descriptor, s, _) =
          slice-some (8 * cur) 16 d.txd_map (omega (arith, v.txd_map_length, lt)) in
        let (d₁, h₁, run, memory, _, regs, index, v₁) =
          finish_txenable_lem (1024 * q + 16 * cur) cur d descriptor h v lt s in
        let same_d : d₁ ≡ d' = cc (run, e) in
        let same_h : h₁ ≡ h' = cc (run, e) in
        let ctrl = word 0 descriptor in
        let n : length (reverse_words (bytes_of (clearbit ctrl (flag 12)))) ≡ 4 =
          length-reverse_words (bytes_of (clearbit ctrl (flag 12))) ∙ length-bytes_of _ in
        rw (sym same_d, sym same_h)
          (
            ap (λ k. en k cur) memory ∙ is_enabled-cleared byte ram (1024 * q) h.memory cur ctrl,
            λ j ne.
                ap (λ k. en k j) memory
                ∙ is_enabled-other byte ram (1024 * q) h.memory cur j _ n (λ x. ne (sym x)),
            v₁,
            regs,
            index,
          )

    -- SPWTXD follows the index of the next descriptor.
    next_in_table :
        (d : Device) (xs descriptor : List ℕ)
        → IsReady q d
        → IsValidDevice (emitted d descriptor xs)
        → (emitted d descriptor xs).grspw_reg.txd
          ≡ 1024 * q + 16 * (emitted d descriptor xs).txd_cur
    unfolding sent_registers
    next_in_table d xs descriptor ready next =
        let cur = (emitted d descriptor xs).txd_cur in
        ap (λ t. deposit t 0x3f0 (u32 (cur * 16))) ready.in_table
        ∙ deposit-index q d.txd_cur cur ready.device_valid.txd_cur_lt next.txd_cur_lt room

    -- From the wait on, where the packet of the current descriptor of `d` was sent.
    after_wait-Disables :
        (d d' : Device) (h h₁ h' : Host p) (stop : Bool) (xs descriptor : List ℕ)
        → IsReady q d
        → d.txd_cur < 63
        → en h.memory d.txd_cur ≡ true
        → IsValidDevice (emitted d descriptor xs)
        → h₁.memory ≡ h.memory
        → (wait (emitted d descriptor xs) >>= λ d₂.
              finish_txenable d.grspw_reg.txd d.txd_cur d₂ >>= λ d₃.
              pure {A = Bool × Device} (false, d₃))
            h₁
          ≡ done ((stop, d'), h')
        → (stop ≡ false) × IsReady q d' × Disables d.txd_cur h.memory h'.memory
    after_wait-Disables d d' h h₁ h' stop xs descriptor ready lt on next kept e =
        let em = emitted d descriptor xs in
        let (d₂, h₂, waited, rest) = bind-done (wait em) _ h₁ e in
        let (v₂, txd₂, cur₂, en₂) = w.waits em d₂ h₁ h₂ waited next in
        let (d₃, h₃, fin, end) = bind-done _ _ h₂ rest in
        let (cleared, others, v₃, regs₃, cur₃) =
          finish-Disables d.txd_cur d₂ d₃ h₂ h₃ v₂ lt
            (ap (λ a. finish_txenable a d.txd_cur d₂ h₂) (sym ready.in_table) ∙ fin) in
        let same_d : d' ≡ d₃ = cc end in
        let same_h : h' ≡ h₃ = cc end in
        (
          cc end,
          rw same_d (record {
            device_valid = v₃;
            in_table =
                ap (λ r. r.txd) regs₃
                ∙ (txd₂
                    ∙ (next_in_table d xs descriptor ready next
                        ∙ ap (λ c. 1024 * q + 16 * c) (sym (cur₃ ∙ cur₂))));
          }),
          (
            omega (arith, lt),
            on,
            rw same_h cleared,
            λ j k ne.
                ap (λ h. en h.memory j) same_h ∙ (others j ne ∙ (en₂ j k ∙ ap (λ m. en m j) kept)),
          ),
        )

    -- A call that sent a packet and returns.
    sent-Disables :
        (d d' : Device) (h h' : Host p) (stop : Bool) (xs : List ℕ)
        → IsReady q d
        → d.txd_cur < 63
        → length xs ≡ 512
        → bit (word 0 (tx_descriptor_at d h)) 12 ≡ true
        → begin_txenable d h
          ≡ send_by_descriptor (record d { txd_map = xs }) (tx_descriptor_at d h) h
        → txenable wait d h ≡ done ((stop, d'), h')
        → (stop ≡ false) × IsReady q d' × Disables d.txd_cur h.memory h'.memory
    unfolding txenable
    sent-Disables d d' h h' stop xs ready lt l on begun e =
        let v = ready.device_valid in
        let descriptor = tx_descriptor_at d h in
        let (r, h₁, b, _) = bind-done (begin_txenable d) _ h e in
        let sent = sym begun ∙ b in
        let what = (send_by_descriptor-Ensures d xs descriptor).ensures h h₁ r sent in
        let kept = (send_by_descriptor-Keeps _ descriptor).keeps h h₁ r sent in
        let well =
          (send_by_descriptor-BeginsWell (record d { txd_map = xs }) descriptor
              (with_txd_map d xs v (l ∙ sym v.txd_map_length)) lt).ensures
            h h₁ r sent in
        let on' : en h.memory d.txd_cur ≡ true =
          ap (λ a. bit (word 0 (reverse_words (p.address_space_read h.memory a 16))) 12)
            (sym ready.in_table)
          ∙ on in
        after_wait-Disables d d' h h₁ h' stop xs descriptor ready lt on' (rw what at well.1) kept
          (sym (done-bind (begin_txenable d) _ h h₁ _ (b ∙ ap (λ r. done (r, h₁)) what)) ∙ e)

    -- How a call in the loop ends: beyond the array, at a disabled descriptor, in an exit or a fault of
    -- its wait, or with one more descriptor disabled.
    pub data Ends (d : Device) (h : Host p) : Type 0 where
      ends_fatal : txenable wait d h ≡ fatal → Ends d h
      ends_fault : txenable wait d h ≡ fault → Ends d h
      ends_stopped :
          (d' : Device)
          → txenable wait d h ≡ done ((true, d'), h)
          → bit d'.grspw_reg.chn 0 ≡ false
          → Ends d h
      ends_sent :
          (d' : Device) (h' : Host p)
          → txenable wait d h ≡ done ((false, d'), h')
          → IsReady q d'
          → Disables d.txd_cur h.memory h'.memory
          → Ends d h

    pub txenable-Ends : (d : Device) (h : Host p) → IsReady q d → Ends d h
    txenable-Ends d h ready = elim (txenable-cases m wait d h ready.device_valid) [
      | inl f ↦ ends_fault f
      | inr (inl (d', run, off)) ↦ ends_stopped d' run off
      | inr (inr (xs, l, on, lt, begun)) ↦ outcome xs l on lt begun (txenable wait d h) refl
    ]
      where
        outcome :
            (xs : List ℕ)
            → length xs ≡ 512
            → bit (word 0 (tx_descriptor_at d h)) 12 ≡ true
            → d.txd_cur < 63
            → begin_txenable d h
              ≡ send_by_descriptor (record d { txd_map = xs }) (tx_descriptor_at d h) h
            → (o : Outcome ((Bool × Device) × Host p)) → txenable wait d h ≡ o
            → Ends d h
        outcome xs l on lt begun fatal e = ends_fatal e
        outcome xs l on lt begun fault e = ends_fault e
        outcome xs l on lt begun (done ((stop, d'), h')) e =
            let (goes_on, ready', disables) =
              sent-Disables d d' h h' stop xs ready lt l on begun e in
            ends_sent d' h' (e ∙ ap (λ s. done ((s, d'), h')) goes_on) ready' disables
