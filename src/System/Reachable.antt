-- ===== src/System/Reachable.antt =====
-- What holds in every state that the process can get to.
use qemu_spacewire.Base.{ℕ, ◌≡◌, refl, sym, ◌∙◌, arith, Bool, true, false}
use qemu_spacewire.Host.{Platform, Host}
use qemu_spacewire.Host.Ensures.{Ensures-of_Always}
use qemu_spacewire.Util.Ram.{IsSized, length-malloc}
use qemu_spacewire.Reg.Valid.{reset_registers-IsValid}
use qemu_spacewire.Com.Valid.{IsValidDevice}
use qemu_spacewire.Core.{RxThread}
use qemu_spacewire.Core.Valid.{IsValidCores, IsValidRx, rxthread_round-IsValid}
use qemu_spacewire.Apb.{WriteState, written, must_wait, init_core, init_cores}
use qemu_spacewire.Apb.Access.{apb_read-returned}
use qemu_spacewire.Apb.Valid.{
  IsValidPending, IsValidWrite, begin_write-IsValid, finish_write-IsValid,
}
use qemu_spacewire.System.{
  System, Bus, idle, sent, sleeping, woken, bus_of, signal, Step, bus_read, bus_write, sleep,
  spurious, resume, receive, external, Reach, here, next, start, zeroed_device,
}

-- A write that transmits is of a core and of a descriptor that exist, and does not own the mutex while
-- it waits.
abbrev pub IsValidBus : Bus → Bool → Type 0
IsValidBus idle held = Unit {0}
IsValidBus (sent w) held = IsValidPending w
IsValidBus (sleeping w) held = IsValidPending w × (held ≡ false)
IsValidBus (woken w) held = IsValidPending w × (held ≡ false)

pub record IsValidSystem {p : Platform} (s : System p) : Type 0 where
  pub cores_valid : IsValidCores s.cores
  pub rx_valid : IsValidRx s.rx
  pub bus_valid : IsValidBus s.bus s.mutex_held

bus_of-IsValid : (w : WriteState) (held : Bool) → IsValidWrite w → IsValidBus (bus_of w) held
unfolding bus_of
bus_of-IsValid written held v = tt
bus_of-IsValid (must_wait w) held v = v

signal-IsValid :
    (b : Bool) (bus : Bus) (held : Bool) → IsValidBus bus held → IsValidBus (signal b bus) held
unfolding signal
signal-IsValid true idle held v = v
signal-IsValid true (sent w) held v = v
signal-IsValid true (sleeping w) held v = v
signal-IsValid true (woken w) held v = v
signal-IsValid false idle held v = v
signal-IsValid false (sent w) held v = v
signal-IsValid false (sleeping w) held v = v
signal-IsValid false (woken w) held v = v

-- Every step of every thread keeps the system valid.
pub Step-IsValidSystem :
    {p : Platform} {s t : System p} → IsSized p → Step s t → IsValidSystem s → IsValidSystem t
Step-IsValidSystem {s} m (bus_read addr value held h i run e) v =
    let (f, g) = apb_read-returned s.mutex_held held s.cores addr value s.host h run in
    let kept : held ≡ s.mutex_held = g ∙ sym f in
    let ok : IsValidBus s.bus held = rw kept v.bus_valid in
    rw e (record { cores_valid = v.cores_valid; rx_valid = v.rx_valid; bus_valid = ok })
Step-IsValidSystem {s} m (bus_write addr value w cores h i run e) v =
    let (ok, c) =
      (begin_write-IsValid s.cores addr value m v.cores_valid).ensures s.host h (w, cores) run in
    rw e (record {
      cores_valid = c;
      rx_valid = v.rx_valid;
      bus_valid = bus_of-IsValid w s.mutex_held ok;
    })
Step-IsValidSystem {s} m (sleep w b e) v =
    let ok : IsValidBus (sent w) s.mutex_held = rw b at v.bus_valid in
    rw e (record { cores_valid = v.cores_valid; rx_valid = v.rx_valid; bus_valid = (ok, refl) })
Step-IsValidSystem {s} m (spurious w b e) v =
    let ok : IsValidBus (sleeping w) s.mutex_held = rw b at v.bus_valid in
    rw e (record { cores_valid = v.cores_valid; rx_valid = v.rx_valid; bus_valid = ok })
Step-IsValidSystem {s} m (resume w cores h b free run e) v =
    let ok : IsValidBus (woken w) s.mutex_held = rw b at v.bus_valid in
    let c =
      (Ensures-of_Always (finish_write-IsValid s.cores w v.cores_valid ok.0)).ensures s.host h cores
        run in
    rw e (record { cores_valid = c; rx_valid = v.rx_valid; bus_valid = tt })
Step-IsValidSystem {s} m (receive r h run e) v =
    let (x, c) =
      (rxthread_round-IsValid m s.rx s.cores v.rx_valid v.cores_valid).ensures s.host h r run in
    rw e (record {
      cores_valid = c;
      rx_valid = x;
      bus_valid = signal-IsValid r.signals s.bus s.mutex_held v.bus_valid;
    })
Step-IsValidSystem {s} m (external spwq devq memory e) v =
    rw e (record { cores_valid = v.cores_valid; rx_valid = v.rx_valid; bus_valid = v.bus_valid })

init_core-IsValid : (i : ℕ) → IsValidDevice (init_core i zeroed_device)
unfolding init_core zeroed_device
init_core-IsValid i = record {
  registers_valid = reset_registers-IsValid i _;
  rxd_map_length = length-malloc 1024;
  txd_map_length = length-malloc 512;
  rxd_cur_lt = omega arith;
  txd_cur_lt = omega arith;
}

start-IsValidSystem :
    {p : Platform} (rx : RxThread) (h : Host p) → IsValidRx rx → IsValidSystem (start rx h)
unfolding start init_cores
start-IsValidSystem rx h r = record {
  cores_valid = record {
    count = omega arith;
    all_valid = (
      init_core-IsValid 0,
      (init_core-IsValid 1, (init_core-IsValid 2, (init_core-IsValid 3, tt))),
    );
  };
  rx_valid = r;
  bus_valid = tt;
}

-- From the state that the initialisation leaves, whatever the guest accesses, whatever the external
-- device sends and however the threads interleave: there are always four cores with valid registers,
-- arrays and indices, and a write that waits for an acknowledgement is of a core and of a descriptor
-- within the tables.
pub Reach-IsValidSystem :
    {p : Platform} (rx : RxThread) (h : Host p) {s : System p}
    → IsSized p
    → IsValidRx rx
    → Reach (start rx h) s
    → IsValidSystem s
Reach-IsValidSystem rx h m r here = start-IsValidSystem rx h r
Reach-IsValidSystem rx h m r (next before st) =
    Step-IsValidSystem m st (Reach-IsValidSystem rx h m r before)
