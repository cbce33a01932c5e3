-- ===== src/Core/Valid.antt =====
-- A round of the receive thread leaves valid devices.
use qemu_spacewire.Base.{
  ℕ, ◌≤◌, ◌<◌, ◌≡◌, ◌∙◌, arith, List, length, set, All, get_elem?-some, All-get_elem?, All-set,
  length-set, ◌==◌,
}
use qemu_spacewire.Host.{Platform, M}
use qemu_spacewire.Host.Always.{
  Anything, Always, Always-pure, Always-bind, Always-if, Always-or_fault,
}
use qemu_spacewire.Host.Ensures.{Ensures, Ensures-bind, Ensures-of_Always}
use qemu_spacewire.Util.Word.{u8}
use qemu_spacewire.Util.Ram.{IsSized}
use qemu_spacewire.Mq.{devq, Packet, receive_devpacket}
use qemu_spacewire.Mq.Bounds.{IsBounded, receive_packet-IsBounded}
use qemu_spacewire.Com.{Device}
use qemu_spacewire.Com.Valid.{IsValidDevice}
use qemu_spacewire.Com.Receive.{rxenable-IsValid}
use qemu_spacewire.Com.Begin.{rxtimecode-IsValid}
use qemu_spacewire.Core.{RxThread, RxRound, with_core, dispatch, rxthread_round}

-- There are four cores, and their devices are valid.
pub record IsValidCores (cores : List Device) : Type 0 where
  pub count : length cores ≡ 4
  pub all_valid : All IsValidDevice cores

-- The receive buffer is not empty.
abbrev pub IsValidRx : RxThread → Type 0
IsValidRx rx = 0 < length rx.g_rxdata

-- The state between two rounds.
abbrev pub IsValidRound : RxRound → Type 0
IsValidRound r = IsValidRx r.rx × IsValidCores r.cores

pub set-IsValidCores :
    (cores : List Device) (i : ℕ) (d : Device)
    → IsValidCores cores
    → IsValidDevice d
    → IsValidCores (set cores i d)
set-IsValidCores cores i d v w = record {
  count = length-set cores i d ∙ v.count;
  all_valid = All-set IsValidDevice cores i d v.all_valid w;
}

module _ {p : Platform} where
  with_core-Always :
      (cores : List Device) (i : ℕ) (handler : Device → M p Device)
      → i < 4
      → IsValidCores cores
      → ((d : Device) → IsValidDevice d → Always IsValidDevice (handler d))
      → Always IsValidCores (with_core cores i handler)
  unfolding with_core
  with_core-Always cores i handler lt v keeps =
      let (d, e) = get_elem?-some cores i (omega (arith, v.count, lt)) in
      Always-bind {Q = IsValidDevice}
        (Always-or_fault (d, e, All-get_elem? IsValidDevice cores i d v.all_valid e))
        λ d w. Always-bind (keeps d w) λ d' w'. Always-pure _ (set-IsValidCores cores i d' v w')

  module _ (m : IsSized p) where
    -- A message for one of the four cores is always handled, and leaves valid devices.
    pub dispatch-Always :
        (rx : RxThread) (cores : List Device) (pkt : Packet)
        → IsValidRx rx
        → IsValidCores cores
        → pkt.data_len ≤ length rx.g_rxdata
        → pkt.grspw_id < 4
        → Always IsValidRound (dispatch {p = p} rx cores pkt)
    unfolding dispatch
    dispatch-Always rx cores pkt r v le lt =
        Always-if (pkt.pword == 0) (λ _. Always-pure _ (r, v))
          λ _.
            Always-if (pkt.pword == 1)
              (λ _.
                Always-bind
                  (with_core-Always cores pkt.grspw_id _ lt v λ d w. record {
                    returns =
                        λ h. rxenable-IsValid d rx.g_rxdata pkt.data_len rx.recv_att h m w le r;
                  })
                  λ cores' v'. Always-pure _ (r, v'))
              λ _.
                Always-if (pkt.pword == 2)
                  (λ _.
                    let (byte, first) = get_elem?-some rx.g_rxdata 0 r in
                    Always-bind {Q = Anything} (Always-or_fault (byte, first, tt)) λ timecode _.
                      Always-bind
                        (with_core-Always cores pkt.grspw_id _ lt v
                          λ d w. rxtimecode-IsValid d (u8 timecode) w (omega arith))
                        λ cores' v'. Always-pure _ (r, v'))
                  (λ _. Always-pure _ (r, v))

    -- A round that returns leaves four valid devices, whatever message it received.
    pub rxthread_round-IsValid :
        (rx : RxThread) (cores : List Device)
        → IsValidRx rx
        → IsValidCores cores
        → Ensures IsValidRound (rxthread_round {p = p} rx cores)
    unfolding rxthread_round receive_devpacket
    rxthread_round-IsValid rx cores r v =
        Ensures-bind {Q = IsBounded rx.g_rxheader rx.g_rxdata}
          (record {
            ensures =
                λ h h' pkt e. receive_packet-IsBounded devq rx.g_rxheader rx.g_rxdata h h' pkt e;
          })
          λ pkt b. Ensures-of_Always (
            dispatch-Always (record rx { g_rxheader = pkt.header; g_rxdata = pkt.payload }) cores
              pkt (omega (arith, b.payload_size, r)) v (omega (arith, b.data_le, b.payload_size))
              b.core_lt)
