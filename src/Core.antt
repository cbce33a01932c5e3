-- ===== src/Core.antt =====
-- grspw/grlib_coregrspw.c: the receive thread, and what it shares with the bus access.
pub mod Valid
pub mod Init
pub mod TxThread
pub mod Queue
mod Tests
use qemu_spacewire.Base.{
  Option, none, some, ℕ, Bool, true, false, List, get_elem?, set, ◌==◌, if◌then◌else◌,
}
use qemu_spacewire.Host.{Platform, M, pure, ◌>>=◌, or_fault}
use qemu_spacewire.Util.Mask.{checkbit}
use qemu_spacewire.Util.Word.{u8}
use qemu_spacewire.Mq.{Packet, receive_devpacket, c_msgq_ack, c_msgq_data, c_msgq_time}
use qemu_spacewire.Reg.{Registers}
use qemu_spacewire.Reg.Masks.{c_spwchn_te}
use qemu_spacewire.Com.{Device, RecvAtt, rxenable, rxtimecode}

-- The variables of the receive thread that live from one message to the next: the two global
-- buffers, and `recv_att`, which is never assigned.
pub record RxThread : Type 0 where
  pub g_rxheader : List ℕ
  pub g_rxdata : List ℕ
  pub recv_att : RecvAtt

-- What a round of the receive thread leaves: whether it signals txthread_wait_txack, its variables
-- and the devices.
pub record RxRound : Type 0 where
  pub signals : Bool
  pub rx : RxThread
  pub cores : List Device

-- grlib_coregrspw_locktxsem, given whether txthread_mutex is owned. The thread of the guest is the only
-- one that takes it, so `none` is that this thread gets no further.
unfoldable pub locktxsem : Bool → Option Bool
locktxsem true = none
locktxsem false = some true

unfoldable pub unlocktxsem : Bool → Bool
unlocktxsem held = false

-- `pthread_cond_signal(&txthread_wait_cond)`, where the transmitter is enabled.
unfoldable pub txwakeup : Registers → Bool
txwakeup r = checkbit r.chn c_spwchn_te

module _ {p : Platform} where
  -- A message for one device: the result of the handler goes back into the array of cores.
  unfoldable pub with_core : List Device → ℕ → (Device → M p Device) → M p (List Device)
  with_core cores i handler = do
    d ← or_fault (get_elem? cores i)
    d' ← handler d
    pure (set cores i d')

  -- The switch on the protocol word.
  unfoldable pub dispatch : RxThread → List Device → Packet → M p RxRound
  dispatch rx cores pkt =
      if pkt.pword == c_msgq_ack
      then pure (record { signals = true; rx = rx; cores = cores })
      else if pkt.pword == c_msgq_data
      then (do
        cores' ← with_core cores pkt.grspw_id λ d. rxenable d rx.g_rxdata pkt.data_len rx.recv_att
        pure (record { signals = false; rx = rx; cores = cores' }))
      else if pkt.pword == c_msgq_time
      then (do
        timecode ← or_fault (get_elem? rx.g_rxdata 0)
        cores' ← with_core cores pkt.grspw_id λ d. rxtimecode d (u8 timecode)
        pure (record { signals = false; rx = rx; cores = cores' }))
      else pure (record { signals = false; rx = rx; cores = cores })

  -- One round of the loop of grlib_coregrspw_rxthread.
  unfoldable pub rxthread_round : RxThread → List Device → M p RxRound
  rxthread_round rx cores = do
    pkt ← receive_devpacket rx.g_rxheader rx.g_rxdata
    dispatch (record rx { g_rxheader = pkt.header; g_rxdata = pkt.payload }) cores pkt
