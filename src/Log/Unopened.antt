-- ===== src/Log/Unopened.antt =====
-- grlib_loggrspw_init does not test what fopen returns: a file that could not be opened.
use qemu_spacewire.Base.{
  ℕ, zero, suc, ◌<◌, ◌≡◌, ◌≢◌, inl, inr, arith, Bool, true, false, Bool-cases, List, [], ◌∷◌, ◌++◌,
  none, some, Option-cases, get_elem?, get_elem?-set_ne, ◌==◌, if◌then◌else◌,
}
use qemu_spacewire.Host.{LogEntry, trace_readreg, trace_writereg, check_warning}
use qemu_spacewire.Log.{
  Files, Printer, ◌then◌, fprintf, print_bitfield, print_bitheader, print_ctrfield, print_stsfield,
  print_chnfield, print_readreg, print_writereg, print_entry, print_log, loggrspw_init,
}

-- A file that is not open stays so, unless the printer fails.
record Keeps (i : ℕ) (f : Printer) : Type 0 where
  keeps :
      (files files' : Files)
      → f files ≡ some files'
      → get_elem? files i ≡ some none
      → get_elem? files' i ≡ some none

Keeps-fprintf : (i j : ℕ) (text : List ℕ) → Keeps i (fprintf j text)
unfolding fprintf
Keeps-fprintf i j text = record {
  keeps = λ files files' e closed. elim (Bool-cases (i == j)) [
    | inl same ↦ let q : i ≡ j = ground (arith, same) in absurd (ground (arith, e, closed, q))
    | inr differ ↦
        let q : j ≢ i = ground (arith, differ) in
        elim (Option-cases (get_elem? files j)) [
          | inl n ↦ absurd (ground (arith, e, n))
          | inr (x, h) ↦ elim (Option-cases x) [
            | inl n ↦ absurd (ground (arith, e, h, n))
            | inr (old, o) ↦
                let same = get_elem?-set_ne files j i (some (old ++ text)) q in
                ground (arith, e, h, o, same, closed)
          ]
        ]
  ];
}

Keeps-skip : (i : ℕ) → Keeps i (λ files. some files)
Keeps-skip i = record { keeps = λ files files' e closed. ground (arith, e, closed) }

Keeps-then : (i : ℕ) (f g : Printer) → Keeps i f → Keeps i g → Keeps i (f then g)
unfolding ◌then◌
Keeps-then i f g p q = record {
  keeps = λ files files' e closed. elim (Option-cases (f files)) [
    | inl n ↦ absurd (ground (arith, e, n))
    | inr (mid, h) ↦
        let e' : g mid ≡ some files' = ground (arith, e, h) in
        q.keeps mid files' e' (p.keeps files mid h closed)
  ];
}

Keeps-if : (b : Bool) (i : ℕ) (f g : Printer) → Keeps i f → Keeps i g → Keeps i (if b then f else g)
Keeps-if true i f g p q = p
Keeps-if false i f g p q = q

Keeps-bitfield : (i j x : ℕ) → Keeps i (print_bitfield j x)
unfolding print_bitfield
Keeps-bitfield i j x = Keeps-fprintf i j _

Keeps-field :
    (i j x : ℕ) (title labels : List ℕ)
    → Keeps i (fprintf j title then print_bitheader j then fprintf j labels then print_bitfield j x)
unfolding print_bitheader
Keeps-field i j x title labels =
    Keeps-then i _ _
      (Keeps-then i _ _ (Keeps-then i _ _ (Keeps-fprintf i j title) (Keeps-fprintf i j _))
        (Keeps-fprintf i j labels))
      (Keeps-bitfield i j x)

Keeps-field_bits :
    (i j result : ℕ) (f : Printer) → Keeps i f → Keeps i (f then print_bitfield j result)
Keeps-field_bits i j result f p = Keeps-then i f _ p (Keeps-bitfield i j result)

Keeps-entry : (i : ℕ) (entry : LogEntry) → Keeps i (print_entry entry)
unfolding print_entry print_readreg print_writereg print_ctrfield print_stsfield print_chnfield
Keeps-entry i (trace_readreg j offset x) = Keeps-then i _ _ (Keeps-fprintf i j _) (
    Keeps-if (offset == 0x00) i _ _ (Keeps-field i j x _ _) (
      Keeps-if (offset == 0x04) i _ _ (Keeps-field i j x _ _)
        (Keeps-if (offset == 0x20) i _ _ (Keeps-field i j x _ _) (Keeps-skip i))))
Keeps-entry i (trace_writereg j offset x result) =
    let field : (title labels : List ℕ)
        → Keeps i (
            fprintf j title
            then print_bitheader j
            then fprintf j labels
            then print_bitfield j x
            then print_bitfield j result) =
      λ title labels. Keeps-field_bits i j result _ (Keeps-field i j x title labels) in
    Keeps-then i _ _ (Keeps-fprintf i j _) (
      Keeps-if (offset == 0x00) i _ _ (field _ _) (
        Keeps-if (offset == 0x04) i _ _ (field _ _)
          (Keeps-if (offset == 0x20) i _ _ (field _ _) (Keeps-skip i))))
Keeps-entry i (check_warning w) = Keeps-skip i

Keeps-log : (i : ℕ) (log : List LogEntry) → Keeps i (print_log log)
unfolding print_log
Keeps-log i [] = Keeps-skip i
Keeps-log i (entry ∷ older) = Keeps-then i _ _ (Keeps-log i older) (Keeps-entry i entry)

-- The access is of core `i`.
abbrev pub IsOf : ℕ → LogEntry → Type 0
IsOf i (trace_readreg j offset x) = j ≡ i
IsOf i (trace_writereg j offset x result) = j ≡ i
IsOf i (check_warning w) = ⊥

fprintf_closed :
    (i j : ℕ) (text : List ℕ) (g : Printer) (files : Files)
    → j ≡ i
    → get_elem? files i ≡ some none
    → (fprintf j text then g) files ≡ none
unfolding fprintf ◌then◌
fprintf_closed i j text g files e closed = rw e (ground (arith, closed))

entry_closed :
    (i : ℕ) (entry : LogEntry) (files : Files)
    → IsOf i entry
    → get_elem? files i ≡ some none
    → print_entry entry files ≡ none
unfolding print_entry print_readreg print_writereg
entry_closed i (trace_readreg j offset x) files is closed = fprintf_closed i j _ _ files is closed
entry_closed i (trace_writereg j offset x result) files is closed =
    fprintf_closed i j _ _ files is closed
entry_closed i (check_warning w) files is closed = absurd is

init_closed :
    (opens : ℕ → Bool) (i : ℕ)
    → i < 4
    → opens i ≡ false
    → get_elem? (loggrspw_init opens) i ≡ some none
unfolding loggrspw_init
init_closed opens zero lt e = ground (arith, e)
init_closed opens (suc zero) lt e = ground (arith, e)
init_closed opens (suc (suc zero)) lt e = ground (arith, e)
init_closed opens (suc (suc (suc zero))) lt e = ground (arith, e)
init_closed opens (suc (suc (suc (suc i)))) lt e = absurd (omega arith)

-- Where grlib_loggrspw_init could not open the file of a core, an access of the guest to a register of
-- that core cannot be logged: after any log of the process, the next access of the core prints through
-- the null pointer that fopen returned.
pub print_log_unopened :
    (opens : ℕ → Bool) (i : ℕ) (entry : LogEntry) (older : List LogEntry)
    → i < 4
    → opens i ≡ false
    → IsOf i entry
    → print_log (entry ∷ older) (loggrspw_init opens) ≡ none
unfolding print_log ◌then◌
print_log_unopened opens i entry older lt e is =
    elim (Option-cases (print_log older (loggrspw_init opens))) [
      | inl n ↦ ground (arith, n)
      | inr (files, h) ↦
          let closed = (Keeps-log i older).keeps _ files h (init_closed opens i lt e) in
          ground (arith, h, entry_closed i entry files is closed)
    ]
