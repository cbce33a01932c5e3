-- ===== src/Host/Sample.antt =====
-- A platform that runs: queues as lists of messages, and a guest memory of bytes.
use qemu_spacewire.Base.{
  ℕ, zero, suc, ◌≡◌, refl, arith, ◌&&◌, List, [], ◌∷◌, ◌++◌, Option, none, some, length, leb, ltb,
  if◌then◌else◌,
}
use qemu_spacewire.Host.{Platform, Host}

-- `mq_maxmsg` and `mq_msgsize` of grlib_mqgrspw_init.
abbrev pub mq_put : List (List ℕ) → List ℕ → Option (List (List ℕ))
mq_put queue m =
    if ltb (length queue) 10 && leb (length m) 1024 then some (queue ++ (m ∷ [])) else none

abbrev pub mq_get : List (List ℕ) → Option (List ℕ × List (List ℕ))
mq_get [] = none
mq_get (m ∷ queue) = some (m, queue)

abbrev pub read_bytes : (ℕ → ℕ) → ℕ → ℕ → List ℕ
read_bytes memory addr zero = []
read_bytes memory addr (suc n) = memory addr ∷ read_bytes memory (suc addr) n

abbrev pub write_bytes : (ℕ → ℕ) → ℕ → List ℕ → ℕ → ℕ
write_bytes memory addr [] a = memory a
write_bytes memory addr (b ∷ bs) a =
    let rest = write_bytes memory (suc addr) bs a in if leb a addr && leb addr a then b else rest

abbrev pub sample : Platform
sample = record {
  Queue = List (List ℕ);
  mq_send = mq_put;
  mq_receive = mq_get;
  Memory = ℕ → ℕ;
  address_space_read = read_bytes;
  address_space_write = write_bytes;
}

abbrev pub zeros : ℕ → List ℕ
zeros zero = []
zeros (suc n) = 0 ∷ zeros n

-- A process with buffers of `n` bytes.
abbrev pub sample_host : ℕ → Host sample
sample_host n = record {
  txbuffer = zeros n;
  rxbuffer = zeros n;
  spwq = [];
  devq = [];
  memory = λ a. 0;
  irq_pulses = [];
  log = [];
}

pub length-zeros : (n : ℕ) → length (zeros n) ≡ n
length-zeros zero = refl
length-zeros (suc n) = omega (arith, length-zeros n)
