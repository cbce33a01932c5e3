-- ===== src/Com/Sample.antt =====
-- A device and a guest for the runs at concrete inputs.
use qemu_spacewire.Base.{
  ℕ, zero, suc, ◌+◌, ◌≤◌, ◌<◌, ◌==◌, ◌≡◌, sym, ap, ◌∙◌, ◌⊎◌, List, [], ◌∷◌, length, if◌then◌else◌,
  refl, arith,
}
use qemu_spacewire.Base.Within.{Within-of_bit_and}
use qemu_spacewire.Host.{Host}
use qemu_spacewire.Host.Sample.{sample, sample_host, zeros, length-zeros, read_bytes, write_bytes}
use qemu_spacewire.Host.Memory.{length-read_bytes, read_bytes-write_bytes}
use qemu_spacewire.Util.Ram.{IsSized}
use qemu_spacewire.Reg.{Registers}
use qemu_spacewire.Reg.Valid.{IsValid}
use qemu_spacewire.Com.{Device, RecvAtt}
use qemu_spacewire.Com.Table.{IsRam, bytes_from}
use qemu_spacewire.Com.Valid.{IsValidDevice}

-- Reset registers with a receiver, a transmitter and a receive descriptor.
abbrev pub registers : Registers
registers = record {
  ctr = 0xa001_0002;
  str = 0;
  ndr = 254;
  clk = 0x404;
  key = 0;
  tim = 5;
  tdr = 0x2_7140;
  chn = 0x803;
  rxl = 4;
  txd = 0;
  rxd = 0;
}

pub registers-IsValid : IsValid registers
registers-IsValid = record {
  ctr_fits = Within-of_bit_and 0xa001_0002 _ refl;
  str_fits = Within-of_bit_and 0 _ refl;
  ndr_fits = Within-of_bit_and 254 _ refl;
  clk_fits = Within-of_bit_and 0x404 _ refl;
  key_fits = Within-of_bit_and 0 _ refl;
  tim_fits = Within-of_bit_and 5 _ refl;
  tdr_fits = Within-of_bit_and 0x2_7140 _ refl;
  chn_fits = Within-of_bit_and 0x803 _ refl;
  rxl_fits = Within-of_bit_and 4 _ refl;
  txd_fits = Within-of_bit_and 0 _ refl;
  rxd_fits = Within-of_bit_and 0 _ refl;
}

abbrev pub device : Device
device = record {
  grspw_id = 1;
  grspw_reg = registers;
  rxd_map = zeros 1024;
  txd_map = zeros 512;
  txd_cur = 0;
  rxd_cur = 0;
}

pub device-IsValid : (cur : ℕ) → cur < 64 → IsValidDevice (record device { txd_cur = cur })
device-IsValid cur lt = record {
  registers_valid = registers-IsValid;
  rxd_map_length = length-zeros 1024;
  txd_map_length = length-zeros 512;
  rxd_cur_lt = omega arith;
  txd_cur_lt = lt;
}

abbrev pub att : RecvAtt
att = record { dc = 0; hc = 0; ep = 0 }

-- A guest whose descriptor at address 0 has only its bit EN.
abbrev pub host : Host sample
host = record (sample_host 32) { memory = λ a. if a == 0 then 2 else 0 }

pub sample-IsSized : IsSized sample
sample-IsSized = record { sized = λ m addr len. length-read_bytes m addr len }

read_bytes-bytes_from : (m : ℕ → ℕ) (addr n : ℕ) → read_bytes m addr n ≡ bytes_from m addr n
read_bytes-bytes_from m addr zero = refl
read_bytes-bytes_from m addr (suc n) = ap (λ xs. m addr ∷ xs) (read_bytes-bytes_from m (suc addr) n)

write_bytes_elsewhere :
    (m : ℕ → ℕ) (addr : ℕ) (bytes : List ℕ) (a : ℕ)
    → (a < addr) ⊎ (addr + length bytes ≤ a)
    → write_bytes m addr bytes a ≡ m a
write_bytes_elsewhere m addr [] a out = refl
write_bytes_elsewhere m addr (b ∷ bytes) a out =
    ground (arith, out, write_bytes_elsewhere m (suc addr) bytes a)

pub sample-IsRam : IsRam sample (λ m. m)
sample-IsRam = record {
  reads = read_bytes-bytes_from;
  writes = λ m addr bytes.
      sym (read_bytes-bytes_from (write_bytes m addr bytes) addr (length bytes))
      ∙ read_bytes-write_bytes m addr bytes;
  leaves = write_bytes_elsewhere;
}
