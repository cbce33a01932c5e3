-- ===== src/Util/Tests.antt =====
-- The utility theorems at concrete words.
use qemu_spacewire.Base.{true, ◌≡◌, refl, arith, [], ◌∷◌, some}
use qemu_spacewire.Host.{Host, done}
use qemu_spacewire.Host.Sample.{sample, sample_host}
use qemu_spacewire.Host.Memory.{read_bytes-write_bytes}
use qemu_spacewire.Util.Swap.{endianness_swap, endianness_swap_lem, reverse_words}
use qemu_spacewire.Util.Ram.{IsMemory, read_leon3_ram, write_leon3_ram, leon3_ram_round_trip}
use qemu_spacewire.Util.Mask.{deposit}

deposit_runs : deposit 0x2_7140 0xf0 0x25 ≡ 0x2_7120
unfolding deposit
deposit_runs = refl

endianness_swap_lem_example :
    endianness_swap (0 ∷ 0 ∷ 0 ∷ 0 ∷ 0 ∷ []) (1 ∷ 2 ∷ 3 ∷ 4 ∷ 5 ∷ []) 5
    ≡ some (4 ∷ 3 ∷ 2 ∷ 1 ∷ 5 ∷ [])
unfolding reverse_words
endianness_swap_lem_example =
    endianness_swap_lem (0 ∷ 0 ∷ 0 ∷ 0 ∷ 0 ∷ []) (1 ∷ 2 ∷ 3 ∷ 4 ∷ 5 ∷ []) refl (omega arith)

sample-IsMemory : IsMemory sample
sample-IsMemory = record { reads_back = λ m addr bytes. read_bytes-write_bytes m addr bytes }

leon3_ram_round_trip_example :
    (h₁ : Host sample) × (write_leon3_ram 0x4000_0000 (1 ∷ 2 ∷ 3 ∷ 4 ∷ []) 4 true (sample_host 0)
      ≡ done (tt, h₁))
    × (read_leon3_ram 0x4000_0000 (0 ∷ 0 ∷ 0 ∷ 0 ∷ []) 4 true h₁ ≡ done (1 ∷ 2 ∷ 3 ∷ 4 ∷ [], h₁))
leon3_ram_round_trip_example =
    leon3_ram_round_trip 0x4000_0000 (1 ∷ 2 ∷ 3 ∷ 4 ∷ []) (0 ∷ 0 ∷ 0 ∷ 0 ∷ []) true (sample_host 0)
      sample-IsMemory refl (omega arith) (λ e. ground arith)
