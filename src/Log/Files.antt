-- ===== src/Log/Files.antt =====
-- The log files: what the traces of the process leave in the file of each core.
use mathlib.Core.List.{append_assoc, append-nil}
use qemu_spacewire.Base.{
  ℕ, zero, suc, ◌<◌, ◌≡◌, ◌≢◌, inl, inr, refl, ◌∙◌, arith, Bool, true, Bool-cases, List, [], ◌∷◌,
  ◌++◌, some, get_elem?, get_elem?-set_ne, get_elem?-set_self, set, index_lt, length, All, ◌==◌,
  if◌then◌else◌,
}
use qemu_spacewire.Host.{LogEntry, trace_readreg, trace_writereg, check_warning}
use qemu_spacewire.Log.{Files, Printer, ◌then◌, print_entry, print_log, loggrspw_init}
use qemu_spacewire.Log.Prints.{Prints, Prints-readreg, Prints-writereg, entry_text}

-- Every core has its file.
pub record IsOpen (files : Files) : Type 0 where
  pub opened : (i : ℕ) → i < 4 → (old : List ℕ) × (get_elem? files i ≡ some (some old))

-- A printer that appends to every file the text for its core.
record Extends (texts : ℕ → List ℕ) (f : Printer) : Type 0 where
  extends :
      (files : Files)
      → IsOpen files
      → (files' : Files) × (f files ≡ some files')
        × IsOpen files'
        × ((i : ℕ) (old : List ℕ)
            → get_elem? files i ≡ some (some old)
            → get_elem? files' i ≡ some (some (old ++ texts i)))

abbrev only : ℕ → List ℕ → ℕ → List ℕ
only j text i = if i == j then text else []

set_file :
    (files : Files) (i j : ℕ) (old was text : List ℕ)
    → get_elem? files j ≡ some (some was)
    → get_elem? files i ≡ some (some old)
    → get_elem? (set files j (some (was ++ text))) i ≡ some (some (old ++ only j text i))
set_file files i j old was text e f = elim (Bool-cases (i == j)) [
  | inl same ↦
      let q : j ≡ i = ground (arith, same) in
      let g : get_elem? files i ≡ some (some was) = rw q at e in
      let self = get_elem?-set_self files i (some (was ++ text)) (index_lt files i _ f) in
      rw (same, q) (ground (arith, self, f, g))
  | inr differ ↦
      let q : j ≢ i = ground (arith, differ) in
      ground (arith, differ, f, append-nil old, get_elem?-set_ne files j i (some (was ++ text)) q)
]

set-IsOpen :
    (files : Files) (j : ℕ) (text : List ℕ)
    → IsOpen files
    → j < length files
    → IsOpen (set files j (some text))
set-IsOpen files j text v lt = record {
  opened = λ i l. elim (Bool-cases (i == j)) [
    | inl same ↦
        let q : j ≡ i = ground (arith, same) in
        (text, rw q (get_elem?-set_self files i (some text) (omega (arith, lt, q))))
    | inr differ ↦
        let (old, f) = v.opened i l in
        (old, get_elem?-set_ne files j i (some text) (ground (arith, differ)) ∙ f)
  ];
}

Extends-of_Prints :
    (j : ℕ) (text : List ℕ) (f : Printer) → j < 4 → Prints j text f → Extends (only j text) f
Extends-of_Prints j text f lt p = record {
  extends = λ files v.
      let (was, e) = v.opened j lt in
      (
        set files j (some (was ++ text)),
        p.prints files was e,
        set-IsOpen files j (was ++ text) v (index_lt files j _ e),
        λ i old g. set_file files i j old was text e g,
      );
}

Extends-skip : Extends (λ i. []) (λ files. some files)
Extends-skip = record { extends = λ files v. (files, refl, v, λ i old e. rw (append-nil old) e) }

Extends-then :
    (t u : ℕ → List ℕ) (f g : Printer)
    → Extends t f
    → Extends u g
    → Extends (λ i. t i ++ u i) (f then g)
unfolding ◌then◌
Extends-then t u f g p q = record {
  extends = λ files v.
      let (mid, e, w, k) = p.extends files v in
      let (last, d, x, l) = q.extends mid w in
      (
        last,
        ground (arith, e, d),
        x,
        λ i old o. rw (append_assoc old (t i) (u i)) at (l i (old ++ t i) (k i old o)),
      );
}

-- The entry is of one of the four cores.
abbrev pub HasCore : LogEntry → Type 0
HasCore (trace_readreg i offset x) = i < 4
HasCore (trace_writereg i offset x result) = i < 4
HasCore (check_warning w) = Unit {0}

-- The text of the entry where it is one of core `i`.
abbrev pub text_for : ℕ → LogEntry → List ℕ
text_for i (trace_readreg j offset x) = only j (entry_text (trace_readreg j offset x)) i
text_for i (trace_writereg j offset x result) =
    only j (entry_text (trace_writereg j offset x result)) i
text_for i (check_warning w) = []

-- The texts of the entries of core `i` in a log that has its newest entry first, the oldest first.
abbrev pub core_text : ℕ → List LogEntry → List ℕ
core_text i [] = []
core_text i (entry ∷ older) = core_text i older ++ text_for i entry

Extends-entry :
    (entry : LogEntry) → HasCore entry → Extends (λ i. text_for i entry) (print_entry entry)
unfolding print_entry
Extends-entry (trace_readreg j offset x) lt = Extends-of_Prints j _ _ lt (Prints-readreg j offset x)
Extends-entry (trace_writereg j offset x result) lt =
    Extends-of_Prints j _ _ lt (Prints-writereg j offset x result)
Extends-entry (check_warning w) lt = Extends-skip

Extends-log :
    (log : List LogEntry) → All HasCore log → Extends (λ i. core_text i log) (print_log log)
unfolding print_log
Extends-log [] all = Extends-skip
Extends-log (entry ∷ older) all =
    Extends-then (λ i. core_text i older) (λ i. text_for i entry) _ _ (Extends-log older all.1)
      (Extends-entry entry all.0)

init_file :
    (opens : ℕ → Bool) (i : ℕ)
    → i < 4
    → opens i ≡ true
    → get_elem? (loggrspw_init opens) i ≡ some (some [])
unfolding loggrspw_init
init_file opens zero lt e = ground (arith, e)
init_file opens (suc zero) lt e = ground (arith, e)
init_file opens (suc (suc zero)) lt e = ground (arith, e)
init_file opens (suc (suc (suc zero))) lt e = ground (arith, e)
init_file opens (suc (suc (suc (suc i)))) lt e = absurd (omega arith)

-- Where grlib_loggrspw_init could open the four files: every log of the process whose accesses are of
-- the four cores is printed to its end, and afterwards the file of each core holds exactly the texts
-- of the accesses of that core, in their order. No access shows in the file of another core.
pub print_log_separates :
    (opens : ℕ → Bool) (log : List LogEntry)
    → ((i : ℕ) → i < 4 → opens i ≡ true)
    → All HasCore log
    → (files : Files) × (print_log log (loggrspw_init opens) ≡ some files)
      × ((i : ℕ) → i < 4 → get_elem? files i ≡ some (some (core_text i log)))
print_log_separates opens log all_open all =
    let v : IsOpen (loggrspw_init opens) = record {
      opened = λ i lt. ([], init_file opens i lt (all_open i lt));
    } in
    let (files, e, w, k) = (Extends-log log all).extends (loggrspw_init opens) v in
    (files, e, λ i lt. k i [] (init_file opens i lt (all_open i lt)))
