-- ===== src/Com/Filter.antt =====
-- grlib_comgrspw_rxenable: which packets are dropped without a trace.
use qemu_spacewire.Base.{
  ℕ, Bool, false, not, ◌&&◌, ◌||◌, List, ◌∷◌, ◌≡◌, arith, if◌then◌else◌, ◌==◌,
}
use qemu_spacewire.Base.Bits.{bit}
use qemu_spacewire.Host.{Platform, Host, done, ◌>>=◌, check_warning, discarded}
use qemu_spacewire.Util.Mask.Bits.{checkbit-flag}
use qemu_spacewire.Com.{Device, RecvAtt, rxenable, accept_packet, warn_discarded}

-- The receiver is on (RE), and the packet's first byte is the node address or every address is taken
-- (OPM).
abbrev pub is_addressed : Device → ℕ → Bool
is_addressed d node_addr =
    bit d.grspw_reg.chn 1 && (bit d.grspw_reg.ctr 5 || (d.grspw_reg.ndr == node_addr))

-- A packet that is not addressed to a core with its receiver on, or for which there is no receive
-- descriptor (RD is '0'), changes nothing of the device, of the guest's memory and of the interrupts.
-- The log gets the warning of a discarded packet exactly if the packet was addressed to the core and
-- NS is '0'; every other one is dropped without a trace.
pub rxenable_filter :
    {p : Platform} (d : Device) (node_addr : ℕ) (rest : List ℕ) (len : ℕ) (att : RecvAtt)
    (h : Host p)
    → is_addressed d node_addr && bit d.grspw_reg.chn 11 ≡ false
    → rxenable d (node_addr ∷ rest) len att h
      ≡ done (
        d,
        record h {
          log =
              if is_addressed d node_addr && not (bit d.grspw_reg.chn 12)
              then check_warning discarded ∷ h.log
              else h.log;
        },
      )
unfolding rxenable accept_packet warn_discarded ◌>>=◌
rxenable_filter d node_addr rest len att h e = ground (
  arith,
  e,
  checkbit-flag d.grspw_reg.chn 1,
  checkbit-flag d.grspw_reg.ctr 5,
  checkbit-flag d.grspw_reg.chn 11,
  checkbit-flag d.grspw_reg.chn 12,
)
