-- ===== src/Core/TxThread/Tests.antt =====
-- A round of the transmit thread at a concrete guest.
use qemu_spacewire.Base.{◌≡◌, refl, ap, arith, List, [], ◌∷◌, length, All, some, ◌⊎◌}
use qemu_spacewire.Host.{Host, M, done, fatal, fault}
use qemu_spacewire.Host.Sample.{sample}
use qemu_spacewire.Com.{Device}
use qemu_spacewire.Com.Table.{is_enabled}
use qemu_spacewire.Com.Sample.{device, device-IsValid, host, sample-IsSized, sample-IsRam}
use qemu_spacewire.Core.TxThread.{transmit_cores}
use qemu_spacewire.Core.TxThread.Ends.{IsTransmitter, IsOff, transmit_cores_ends}

-- The acknowledgement comes at once.
abbrev at_once : Device → M sample Device
at_once d h = done (d, h)

device-IsTransmitter : IsTransmitter at_once device
device-IsTransmitter = record {
  q = 0;
  room = omega arith;
  waits = record {
    waits = λ d d' h h' e v.
        let same_d : d' ≡ d = cc e in
        let same_h : h' ≡ h = cc e in
        (
          rw same_d v,
          ap (λ d. d.grspw_reg.txd) same_d,
          ap (λ d. d.txd_cur) same_d,
          λ j lt. ap (λ h. is_enabled sample 0 h.memory j) same_h,
        );
  };
  ready = record { device_valid = device-IsValid 0 (omega arith); in_table = refl };
}

transmit_cores_ends_example :
    ((cores' : List Device) × (h' : Host sample) × (transmit_cores at_once 65 (device ∷ []) host
        ≡ done (some cores', h'))
      × (length cores' ≡ 1)
      × All IsOff cores')
    ⊎ ((transmit_cores at_once 65 (device ∷ []) host ≡ fatal)
        ⊎ (transmit_cores at_once 65 (device ∷ []) host ≡ fault))
transmit_cores_ends_example =
    transmit_cores_ends sample-IsSized (λ m. m) sample-IsRam at_once 65 (device ∷ []) host
      (omega arith) (device-IsTransmitter, tt)
