-- ===== src/Mq/Lifecycle.antt =====
-- grspw/grlib_mqgrspw.c: the queues are opened and removed, by the device and by its peer.
pub mod Laws
pub mod Sample
use Prim.Native.String.{String}
use qemu_spacewire.Base.{
  ℕ, ◌≡◌, ◌≢◌, refl, sym, ◌∙◌, ap, arith, Bool, true, false, Option, none, some, Option-cases, ◌⊎◌,
  inl, inr,
}
use qemu_spacewire.Host.{Outcome, done, fatal, fault}
use qemu_spacewire.Mq.{c_maxq_size}

abbrev pub c_spwq : String
c_spwq = "/spwq"

abbrev pub c_devq : String
c_devq = "/devq"

-- `struct mq_attr`.
pub record MqAttr : Type 0 where
  pub mq_flags : ℕ
  pub mq_maxmsg : ℕ
  pub mq_msgsize : ℕ
  pub mq_curmsgs : ℕ

pub data OpenMode : Type 0 where
  o_wronly o_rdonly : OpenMode

-- The calls of <mqueue.h> on the system: `none` is the result -1. `mq_open` is told whether O_CREAT is
-- set, and the attributes for a queue that it makes.
pub record Posix : Type 1 where
  pub State : Type 0
  pub Descriptor : Type 0
  pub mq_open : State → String → OpenMode → Option MqAttr → Option (Descriptor × State)
  pub mq_close : State → Descriptor → Option State
  pub mq_unlink : State → String → Option State

-- The global variables of one process, and the system.
pub record Process (k : Posix) : Type 0 where
  pub spwq : k.Descriptor
  pub devq : k.Descriptor
  pub system : k.State

-- The attributes that grlib_mqgrspw_init asks for.
abbrev pub attr : MqAttr
attr = record { mq_flags = 0; mq_maxmsg = 10; mq_msgsize = c_maxq_size; mq_curmsgs = 0 }

module _ {k : Posix} where
  -- `spwq = mq_open(C_SPWQ, ...)` with its CHECK_FATAL.
  unfoldable pub open_spwq : OpenMode → Option MqAttr → Process k → Outcome (Process k)
  open_spwq mode made p = elim (k.mq_open p.system c_spwq mode made) [
    | none ↦ fatal
    | some (d, s) ↦ done (record p { spwq = d; system = s })
  ]

  unfoldable pub open_devq : OpenMode → Option MqAttr → Process k → Outcome (Process k)
  open_devq mode made p = elim (k.mq_open p.system c_devq mode made) [
    | none ↦ fatal
    | some (d, s) ↦ done (record p { devq = d; system = s })
  ]

  -- A call whose result is only checked, with CHECK_FATAL.
  unfoldable pub checked : (k.State → Option k.State) → Process k → Outcome (Process k)
  checked call p = elim (call p.system) [ none ↦ fatal | some s ↦ done (record p { system = s }) ]

  infixl 5 ◌then◌
  unfoldable pub ◌then◌ :
      (Process k → Outcome (Process k))
      → (Process k → Outcome (Process k))
      → Process k
      → Outcome (Process k)
  ◌then◌ f g p = elim (f p) [ done q ↦ g q | fatal ↦ fatal | fault ↦ fault ]

  unfoldable pub mqgrspw_init : Process k → Outcome (Process k)
  mqgrspw_init = open_spwq o_wronly (some attr) then open_devq o_rdonly (some attr)

  unfoldable pub mqgrspw_connect : Process k → Outcome (Process k)
  mqgrspw_connect = open_devq o_wronly none then open_spwq o_rdonly none

  unfoldable pub devdestroy : Process k → Outcome (Process k)
  devdestroy p = (checked (λ s. k.mq_close s p.devq) then checked (λ s. k.mq_unlink s c_devq)) p

  unfoldable pub spwdestroy : Process k → Outcome (Process k)
  spwdestroy p = (checked (λ s. k.mq_close s p.spwq) then checked (λ s. k.mq_unlink s c_spwq)) p
