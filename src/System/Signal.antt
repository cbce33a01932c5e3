-- ===== src/System/Signal.antt =====
-- The signal on txthread_wait_txack, given or not by several messages.
use qemu_spacewire.Base.{Bool, true, false, ◌||◌, ◌≡◌, refl}
use qemu_spacewire.System.{Bus, idle, sent, sleeping, woken, signal}

pub signal-false : (bus : Bus) → signal false bus ≡ bus
unfolding signal
signal-false idle = refl
signal-false (sent w) = refl
signal-false (sleeping w) = refl
signal-false (woken w) = refl

pub signal-signal : (a b : Bool) (bus : Bus) → signal b (signal a bus) ≡ signal (a || b) bus
unfolding signal
signal-signal true true idle = refl
signal-signal true true (sent w) = refl
signal-signal true true (sleeping w) = refl
signal-signal true true (woken w) = refl
signal-signal true false idle = refl
signal-signal true false (sent w) = refl
signal-signal true false (sleeping w) = refl
signal-signal true false (woken w) = refl
signal-signal false b idle = refl
signal-signal false b (sent w) = refl
signal-signal false b (sleeping w) = refl
signal-signal false b (woken w) = refl
