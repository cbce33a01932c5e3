-- ===== src/Host.antt =====
-- What the device code runs on: the outcomes of C code, the platform below it (QEMU's guest
-- memory and the POSIX message queues, which are parameters), and the process state outside the
-- registers.
pub mod Always
pub mod Ensures
pub mod Keeps
pub mod Bind
pub mod Buffer
pub mod Sample
pub mod Memory
use qemu_spacewire.Base.{ℕ, Bool, true, false, List, [], ◌∷◌, Option, none, some}

-- `fatal` is the `exit(-1)` of CHECK_FATAL (grspw/grlib_loggrspw.h); `fault` is an access outside
-- an object, which C leaves undefined.
pub data Outcome (A : Type 0) : Type 0 where
  done : A → Outcome A
  fatal : Outcome A
  fault : Outcome A

-- The platform: the queues of <mqueue.h> (`none` is the result -1) and QEMU's address space.
pub record Platform : Type 1 where
  pub Queue : Type 0
  pub mq_send : Queue → List ℕ → Option Queue
  pub mq_receive : Queue → Option (List ℕ × Queue)
  pub Memory : Type 0
  pub address_space_read : Memory → ℕ → ℕ → List ℕ
  pub address_space_write : Memory → ℕ → List ℕ → Memory

-- The messages of CHECK_WARNING in grlib_comgrspw_rxenable.
pub data Warning : Type 0 where
  truncated descriptor_disabled discarded : Warning

-- One call of a trace function of grspw/grlib_loggrspw.c, with its arguments, or one warning that
-- CHECK_WARNING prints.
pub data LogEntry : Type 0 where
  trace_readreg : ℕ → ℕ → ℕ → LogEntry
  trace_writereg : ℕ → ℕ → ℕ → ℕ → LogEntry
  check_warning : Warning → LogEntry

-- The process state that is not in a device: the global buffers of grlib_mqgrspw.c, the two queues,
-- the guest memory, the cores whose interrupt was pulsed and the log, both newest first.
pub record Host (p : Platform) : Type 0 where
  pub txbuffer : List ℕ
  pub rxbuffer : List ℕ
  pub spwq : p.Queue
  pub devq : p.Queue
  pub memory : p.Memory
  pub irq_pulses : List ℕ
  pub log : List LogEntry

-- A C function on that state.
abbrev pub M : Platform → Type 0 → Type 0
M p A = Host p → Outcome (A × Host p)

module _ {p : Platform} where
  abbrev pub pure : {A : Type 0} → A → M p A
  pure a h = done (a, h)

  infixl 5 ◌>>=◌ ◌>>◌
  unfoldable pub ◌>>=◌ : {A B : Type 0} → M p A → (A → M p B) → M p B
  ◌>>=◌ m f h = elim (m h) [ done (a, h') ↦ f a h' | fatal ↦ fatal | fault ↦ fault ]

  abbrev pub ◌>>◌ : {B : Type 0} → M p (Unit {0}) → M p B → M p B
  m >> k = m >>= λ _. k

  -- An access that is out of bounds.
  abbrev pub or_fault : {A : Type 0} → Option A → M p A
  or_fault none h = fault
  or_fault (some a) h = done (a, h)

  -- CHECK_FATAL of grspw/grlib_loggrspw.h, on the condition that ends the process.
  abbrev pub check_fatal : Bool → M p (Unit {0})
  check_fatal true h = fatal
  check_fatal false h = done (tt, h)

  abbrev pub append_log : LogEntry → M p (Unit {0})
  append_log entry h = done (tt, record h { log = entry ∷ h.log })
