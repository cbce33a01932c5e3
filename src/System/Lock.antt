-- ===== src/System/Lock.antt =====
-- The mutex that the guest's thread owns after a wait.
use qemu_spacewire.Base.{Bool, true, false, ◌≡◌, refl}
use qemu_spacewire.Host.{Platform}
use qemu_spacewire.Apb.Access.{apb_read-returned}
use qemu_spacewire.Apb.{WriteState, written, must_wait}
use qemu_spacewire.System.{
  System, Bus, idle, sent, sleeping, woken, bus_of, signal, Step, bus_read, bus_write, sleep,
  spurious, resume, receive, external, Reach, here, next,
}

-- Once a write has waited: wherever the bus is idle, the mutex is owned.
abbrev OwnsWhenIdle : Bus → Bool → Type 0
OwnsWhenIdle idle held = held ≡ true
OwnsWhenIdle _ held = Unit {0}

signal-OwnsWhenIdle :
    (b : Bool) (bus : Bus) (held : Bool) → OwnsWhenIdle bus held → OwnsWhenIdle (signal b bus) held
unfolding signal
signal-OwnsWhenIdle true idle held v = v
signal-OwnsWhenIdle true (sent w) held v = v
signal-OwnsWhenIdle true (sleeping w) held v = v
signal-OwnsWhenIdle true (woken w) held v = v
signal-OwnsWhenIdle false idle held v = v
signal-OwnsWhenIdle false (sent w) held v = v
signal-OwnsWhenIdle false (sleeping w) held v = v
signal-OwnsWhenIdle false (woken w) held v = v

bus_of-OwnsWhenIdle : (w : WriteState) (held : Bool) → held ≡ true → OwnsWhenIdle (bus_of w) held
unfolding bus_of
bus_of-OwnsWhenIdle written held h = h
bus_of-OwnsWhenIdle (must_wait w) held h = tt

Step-OwnsWhenIdle :
    {p : Platform} {s t : System p}
    → Step s t
    → OwnsWhenIdle s.bus s.mutex_held
    → OwnsWhenIdle t.bus t.mutex_held
Step-OwnsWhenIdle {s} (bus_read addr value held h i run e) v =
    let (f, _) = apb_read-returned s.mutex_held held s.cores addr value s.host h run in
    let owned : s.mutex_held ≡ true = rw i at v in absurd (cc (owned, f))
Step-OwnsWhenIdle {s} (bus_write addr value w cores h i run e) v =
    let held : s.mutex_held ≡ true = rw i at v in rw e (bus_of-OwnsWhenIdle w s.mutex_held held)
Step-OwnsWhenIdle (sleep w i e) v = rw e tt
Step-OwnsWhenIdle (spurious w i e) v = rw e tt
Step-OwnsWhenIdle (resume w cores h i f run e) v = rw e refl
Step-OwnsWhenIdle {s} (receive r h run e) v =
    rw e (signal-OwnsWhenIdle r.signals s.bus s.mutex_held v)
Step-OwnsWhenIdle (external q₁ q₂ memory e) v = rw e v

Reach-OwnsWhenIdle :
    {p : Platform} {s t : System p}
    → OwnsWhenIdle s.bus s.mutex_held
    → Reach s t
    → OwnsWhenIdle t.bus t.mutex_held
Reach-OwnsWhenIdle v here = v
Reach-OwnsWhenIdle v (next before st) = Step-OwnsWhenIdle st (Reach-OwnsWhenIdle v before)

-- A read of a register.
abbrev pub IsRead : {p : Platform} {s t : System p} → Step s t → Type 0
IsRead (bus_read addr value held h i run e) = Unit {0}
IsRead _ = ⊥

no_read :
    {p : Platform} {s t : System p} (st : Step s t)
    → OwnsWhenIdle s.bus s.mutex_held
    → IsRead st
    → ⊥
no_read {s} (bus_read addr value held h i run e) v r =
    let (f, _) = apb_read-returned s.mutex_held held s.cores addr value s.host h run in
    let owned : s.mutex_held ≡ true = rw i at v in cc (owned, f)
no_read (bus_write addr value w cores h i run e) v r = r
no_read (sleep w i e) v r = r
no_read (spurious w i e) v r = r
no_read (resume w cores h i f run e) v r = r
no_read (receive x h run e) v r = r
no_read (external q₁ q₂ memory e) v r = r

-- A write that has waited never gives the mutex back: after a state where the bus is idle and the
-- mutex is owned, as a completed write leaves it, no step of any later state is a read of a register,
-- which would have to take the mutex first.
pub reads_blocked :
    {p : Platform} {s t u : System p}
    → s.bus ≡ idle
    → s.mutex_held ≡ true
    → Reach s t
    → (st : Step t u) → ¬ IsRead st
reads_blocked {s} b m r st =
    let start : OwnsWhenIdle s.bus s.mutex_held = rw b m in no_read st (Reach-OwnsWhenIdle start r)
