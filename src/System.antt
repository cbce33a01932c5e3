-- ===== src/System.antt =====
-- The threads of the process (grspw/grlib_coregrspw.c, grspw/grlib_apbgrspw.c): the guest's access to
-- the bus, the receive thread, and the external device at the other end of the queues, as steps.
pub mod Reachable
pub mod Acknowledge
pub mod Lock
pub mod Signal
pub mod Deliver
pub mod Reads
pub mod Transmits
pub mod Identity
pub mod Progress
mod Tests
use qemu_spacewire.Base.{ℕ, Bool, true, false, List, [], ◌∷◌, ◌≡◌}
use qemu_spacewire.Host.{Platform, Host, done}
use qemu_spacewire.Util.Ram.{malloc}
use qemu_spacewire.Reg.{Registers}
use qemu_spacewire.Com.{Device}
use qemu_spacewire.Core.{RxThread, RxRound, rxthread_round}
use qemu_spacewire.Apb.{
  Pending, WriteState, written, must_wait, returned, apb_read, begin_write, finish_write,
  init_cores,
}

-- Where the thread that runs the guest is. A write that transmits has sent its packet (`sent`), then
-- waits for the acknowledgement in grlib_coregrspw_txwaitack (`sleeping`), and is signalled
-- (`woken`).
pub data Bus : Type 0 where
  idle : Bus
  sent : Pending → Bus
  sleeping : Pending → Bus
  woken : Pending → Bus

-- `mutex_held`: the guest's thread owns txthread_mutex. No other thread takes it.
pub record System (p : Platform) : Type 0 where
  pub cores : List Device
  pub rx : RxThread
  pub bus : Bus
  pub mutex_held : Bool
  pub host : Host p

-- From the state of a write.
unfoldable pub bus_of : WriteState → Bus
bus_of written = idle
bus_of (must_wait w) = sent w

-- pthread_cond_signal on txthread_wait_txack: it wakes a thread that waits at that moment, and is
-- forgotten where none does.
unfoldable pub signal : Bool → Bus → Bus
signal true (sleeping w) = woken w
signal _ bus = bus

-- One step of one thread. A step is atomic but for the wait of a write, which it is cut at.
-- pthread_cond_wait gives up the mutex and owns it when it returns; it may return with no signal.
-- POSIX leaves a wait without the mutex undefined; here it waits.
pub data Step {p : Platform} (s t : System p) : Type 0 where
  bus_read :
      (addr value : ℕ) (held : Bool) (h : Host p)
      → s.bus ≡ idle
      → apb_read s.mutex_held s.cores addr s.host ≡ done (returned value held, h)
      → t ≡ record s { mutex_held = held; host = h }
      → Step s t
  bus_write :
      (addr value : ℕ) (w : WriteState) (cores : List Device) (h : Host p)
      → s.bus ≡ idle
      → begin_write s.cores addr value s.host ≡ done ((w, cores), h)
      → t ≡ record s { bus = bus_of w; cores = cores; host = h }
      → Step s t
  sleep :
      (w : Pending)
      → s.bus ≡ sent w
      → t ≡ record s { bus = sleeping w; mutex_held = false }
      → Step s t
  spurious : (w : Pending) → s.bus ≡ sleeping w → t ≡ record s { bus = woken w } → Step s t
  resume :
      (w : Pending) (cores : List Device) (h : Host p)
      → s.bus ≡ woken w
      → s.mutex_held ≡ false
      → finish_write s.cores w s.host ≡ done (cores, h)
      → t ≡ record s { bus = idle; mutex_held = true; cores = cores; host = h }
      → Step s t
  receive :
      (r : RxRound) (h : Host p)
      → rxthread_round s.rx s.cores s.host ≡ done (r, h)
      → t ≡ record s { bus = signal r.signals s.bus; rx = r.rx; cores = r.cores; host = h }
      → Step s t
  external :
      (spwq devq : p.Queue) (memory : p.Memory)
      → t ≡ record s { host = record s.host { spwq = spwq; devq = devq; memory = memory } }
      → Step s t

pub data Reach {p : Platform} (s : System p) : System p → Type 0 where
  here : Reach s s
  next : {t u : System p} → Reach s t → Step t u → Reach s u

-- QEMU hands out the device's memory zeroed.
abbrev pub zeroed_registers : Registers
zeroed_registers = record {
  ctr = 0;
  str = 0;
  ndr = 0;
  clk = 0;
  key = 0;
  tim = 0;
  tdr = 0;
  chn = 0;
  rxl = 0;
  txd = 0;
  rxd = 0;
}

unfoldable pub zeroed_device : Device
zeroed_device = record {
  grspw_id = 0;
  grspw_reg = zeroed_registers;
  rxd_map = malloc 1024;
  txd_map = malloc 512;
  txd_cur = 0;
  rxd_cur = 0;
}

-- The process when grlib_apbgrspw_init returns.
unfoldable pub start : {p : Platform} → RxThread → Host p → System p
unfolding zeroed_device
start rx h = record {
  cores = init_cores 0 (zeroed_device ∷ zeroed_device ∷ zeroed_device ∷ zeroed_device ∷ []);
  rx = rx;
  bus = idle;
  mutex_held = false;
  host = h;
}
