-- ===== src/Core/TxThread/Ends.antt =====
-- The loop of the transmit thread comes to its end.
use qemu_spacewire.Base.{
  ℕ, zero, suc, ◌+◌, ◌*◌, ◌^◌, ◌≤◌, ◌<◌, ◌≡◌, ◌≢◌, refl, sym, ◌∙◌, ap, arith, Bool, true, false,
  List, [], ◌∷◌, length, All, Option, some, ◌⊎◌, inl, inr, Bool-cases, ◌==◌,
}
use qemu_spacewire.Base.Bits.{bit}
use qemu_spacewire.Host.{Platform, Host, M, Outcome, done, fatal, fault, ◌>>=◌}
use qemu_spacewire.Util.Ram.{IsSized}
use qemu_spacewire.Com.{Device}
use qemu_spacewire.Com.Table.{IsRam, is_enabled}
use qemu_spacewire.Com.Sends.{off-stops}
use qemu_spacewire.Com.Round.{
  IsReady, Waits, ends_fatal, ends_fault, ends_stopped, ends_sent, txenable-Ends,
}
use qemu_spacewire.Core.TxThread.{send_all, transmit_core, transmit_cores}
use qemu_spacewire.Core.TxThread.Count.{count, count_le, count_drops}

kept_enabled :
    (f g : ℕ → Bool) (i : ℕ)
    → f i ≡ true
    → ((j : ℕ) → j < 64 → j ≢ i → g j ≡ f j)
    → (j : ℕ) → j < 64
    → g j ≡ true
    → f j ≡ true
kept_enabled f g i on others j k e = elim (Bool-cases (j == i)) [
  | inl same ↦ let here : j ≡ i = ground (arith, same) in ap f here ∙ on
  | inr other ↦ let ne : j ≢ i = ground (arith, other) in sym (others j k ne) ∙ e
]

module _ {p : Platform} (q : ℕ) where
  -- It returns with the transmitter off and no descriptor enabled that was not, or the process ends, or
  -- it goes beyond an array.
  abbrev pub Finishes : Outcome (Option Device × Host p) → Host p → Type 0
  Finishes o h =
      ((d' : Device) × (h' : Host p) × (o ≡ done (some d', h'))
        × (bit d'.grspw_reg.chn 0 ≡ false)
        × ((j : ℕ)
            → j < 64
            → is_enabled p (1024 * q) h'.memory j ≡ true
            → is_enabled p (1024 * q) h.memory j ≡ true))
      ⊎ ((o ≡ fatal) ⊎ (o ≡ fault))

  -- A first part that enables no descriptor.
  Finishes-before :
      {o o' : Outcome (Option Device × Host p)} (h h' : Host p)
      → Finishes o' h'
      → o ≡ o'
      → ((j : ℕ)
          → j < 64
          → is_enabled p (1024 * q) h'.memory j ≡ true
          → is_enabled p (1024 * q) h.memory j ≡ true)
      → Finishes o h
  Finishes-before h h' (inl (d', h₂, run, off, subset)) e before =
      inl (d', h₂, e ∙ run, off, λ j k on. before j k (subset j k on))
  Finishes-before h h' (inr (inl run)) e before = inr (inl (e ∙ run))
  Finishes-before h h' (inr (inr run)) e before = inr (inr (e ∙ run))

module _ {p : Platform} (m : IsSized p) (byte : p.Memory → ℕ → ℕ) (ram : IsRam p byte) (q : ℕ)
    (room : 1024 * q + 1024 ≤ 2 ^ 32) (wait : Device → M p Device)
    (w : Waits (is_enabled p (1024 * q)) wait) where
  send_all-Finishes :
      (fuel : ℕ) (d : Device) (h : Host p)
      → count 64 (is_enabled p (1024 * q) h.memory) < fuel
      → IsReady q d
      → Finishes q (send_all wait fuel d h) h
  unfolding send_all ◌>>=◌
  send_all-Finishes zero d h lt ready = absurd (omega (arith, lt))
  send_all-Finishes (suc fuel) d h lt ready =
      elim (txenable-Ends m byte ram q room wait w d h ready) [
        | ends_fatal e ↦ inr (inl (ground (arith, e)))
        | ends_fault e ↦ inr (inr (ground (arith, e)))
        | ends_stopped d' e off ↦ inl (d', h, ground (arith, e), off, λ j k on. on)
        | ends_sent d' h' e ready' (k, on, off, others) ↦
            let drops =
              count_drops 64 d.txd_cur (is_enabled p (1024 * q) h.memory)
                (is_enabled p (1024 * q) h'.memory) k on off others in
            let rest = send_all-Finishes fuel d' h' (omega (arith, lt, drops)) ready' in
            Finishes-before q h h' rest (ground (arith, e)) (
              kept_enabled (is_enabled p (1024 * q) h.memory) (is_enabled p (1024 * q) h'.memory)
                d.txd_cur on others)
      ]

  -- The loop and the call after it, with 65 rounds of fuel.
  transmit_core-Finishes :
      (fuel : ℕ) (d : Device) (h : Host p)
      → 65 ≤ fuel
      → IsReady q d
      → Finishes q (transmit_core wait fuel d h) h
  unfolding transmit_core ◌>>=◌
  transmit_core-Finishes fuel d h enough ready =
      let few = count_le 64 (is_enabled p (1024 * q) h.memory) in
      elim (send_all-Finishes fuel d h (omega (arith, few, enough)) ready) [
        | inl (d', h', run, off, subset) ↦
            let again = off-stops wait d' h' off in
            inl (d', h', ground (arith, run, again), off, subset)
        | inr (inl run) ↦ inr (inl (ground (arith, run)))
        | inr (inr run) ↦ inr (inr (ground (arith, run)))
      ]

-- A core that the thread can transmit: SPWTXD holds the address of the current descriptor in a table,
-- and the other threads leave that place and the table as they are during a wait.
pub record IsTransmitter {p : Platform} (wait : Device → M p Device) (d : Device) : Type 0 where
  pub q : ℕ
  pub room : 1024 * q + 1024 ≤ 2 ^ 32
  pub waits : Waits (is_enabled p (1024 * q)) wait
  pub ready : IsReady q d

-- The transmitter of the core is off.
abbrev pub IsOff : Device → Type 0
IsOff d = bit d.grspw_reg.chn 0 ≡ false

-- One round of the transmit thread, where the guest's memory is an array of bytes: on valid devices whose
-- SPWTXD holds the address of their current descriptor in a table that is aligned to 1024 bytes, and
-- where the other threads leave a device's place in the table and the tables as they are during a wait,
-- 65 rounds of the loop of each core are enough: the fuel never runs out. The process ends, or an access
-- is beyond an array, or the thread has gone through all cores, and the transmitter of each is off.
pub transmit_cores_ends :
    {p : Platform} (m : IsSized p) (byte : p.Memory → ℕ → ℕ) (ram : IsRam p byte)
    (wait : Device → M p Device) (fuel : ℕ) (cores : List Device) (h : Host p)
    → 65 ≤ fuel
    → All (IsTransmitter wait) cores
    → ((cores' : List Device) × (h' : Host p) × (transmit_cores wait fuel cores h
          ≡ done (some cores', h'))
        × (length cores' ≡ length cores)
        × All IsOff cores')
      ⊎ ((transmit_cores wait fuel cores h ≡ fatal) ⊎ (transmit_cores wait fuel cores h ≡ fault))
unfolding transmit_cores ◌>>=◌
transmit_cores_ends m byte ram wait fuel [] h enough all = inl ([], h, refl, refl, tt)
transmit_cores_ends m byte ram wait fuel (d ∷ cores) h enough (t, all) =
    elim (transmit_core-Finishes m byte ram t.q t.room wait t.waits fuel d h enough t.ready) [
      | inr (inl run) ↦ inr (inl (ground (arith, run)))
      | inr (inr run) ↦ inr (inr (ground (arith, run)))
      | inl (d', h₁, run, off, _) ↦
          elim (transmit_cores_ends m byte ram wait fuel cores h₁ enough all) [
            | inr (inl rest) ↦ inr (inl (ground (arith, run, rest)))
            | inr (inr rest) ↦ inr (inr (ground (arith, run, rest)))
            | inl (cores', h', rest, l, offs) ↦
                inl (d' ∷ cores', h', ground (arith, run, rest), ap suc l, (off, offs))
          ]
    ]
