-- ===== src/Core/TxThread.antt =====
-- grlib_coregrspw_txthread of grspw/grlib_coregrspw.c, the transmit thread. Its creation in
-- grlib_coregrspw_init is commented out.
pub mod Count
pub mod Ends
mod Tests
use qemu_spacewire.Base.{ℕ, zero, suc, Bool, true, false, List, [], ◌∷◌, Option, none, some}
use qemu_spacewire.Host.{Platform, M, pure, ◌>>=◌}
use qemu_spacewire.Com.{Device, txenable}

-- `txwaitack` is what the other threads do to a device while the thread waits for an acknowledgement.
module _ {p : Platform} (txwaitack : Device → M p Device) where
  -- `do stop = grlib_comgrspw_txenable(deviceptr); while (!stop);`, with fuel for the number of rounds;
  -- `none` is that it ran out.
  unfoldable pub send_all : ℕ → Device → M p (Option Device)
  send_all zero d = pure none
  send_all (suc fuel) d =
      txenable txwaitack d >>= λ r. elim r.0 [ true ↦ pure (some r.1) | false ↦ send_all fuel r.1 ]

  -- The loop, and the call after it.
  unfoldable pub transmit_core : ℕ → Device → M p (Option Device)
  transmit_core fuel d = send_all fuel d >>= λ o. elim o [
    | none ↦ pure none
    | some d' ↦ txenable txwaitack d' >>= λ r. pure (some r.1)
  ]

  -- The loop over the cores, of one round of the thread.
  unfoldable pub transmit_cores : ℕ → List Device → M p (Option (List Device))
  transmit_cores fuel [] = pure (some [])
  transmit_cores fuel (d ∷ cores) = transmit_core fuel d >>= λ o. elim o [
    | none ↦ pure none
    | some d' ↦ transmit_cores fuel cores >>= λ rest. elim rest [
      | none ↦ pure none
      | some cores' ↦ pure (some (d' ∷ cores'))
    ]
  ]
