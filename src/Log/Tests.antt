-- ===== src/Log/Tests.antt =====
-- The traces of concrete accesses.
use qemu_spacewire.Base.{ℕ, ◌<◌, ◌≡◌, refl, arith, true, List, [], ◌∷◌, some, get_elem?}
use qemu_spacewire.Host.{LogEntry, trace_readreg, trace_writereg}
use qemu_spacewire.Log.{
  Files, codes, print_log, loggrspw_init, bitfield_text, readreg_line, register_str, numeral,
}
use qemu_spacewire.Log.Bitfield.{read_bits, read_bits-bitfield_text}
use qemu_spacewire.Log.Files.{core_text, print_log_separates}

abbrev log : List LogEntry
log = trace_readreg 1 0x08 254 ∷ (trace_writereg 0 0x20 0x803 0x1c ∷ [])

read_bits-bitfield_text_example : read_bits 0 (bitfield_text 0xa001_0002) ≡ 0xa001_0002
read_bits-bitfield_text_example = read_bits-bitfield_text 0xa001_0002 (omega arith)

print_log_separates_example :
    (files : Files) × (print_log log (loggrspw_init (λ i. true)) ≡ some files)
    × ((i : ℕ) → i < 4 → get_elem? files i ≡ some (some (core_text i log)))
print_log_separates_example =
    print_log_separates (λ i. true) log (λ i lt. refl) (omega arith, (omega arith, tt))

-- The line of a read of SPWNDR.
ndr_line : readreg_line 1 0x08 254 ≡ codes "READ  [ CORE 1 ] REGISTER SPWNDR 0x08 = fe\n"
unfolding numeral register_str
ndr_line = refl
