-- ===== src/Log/Prints.antt =====
-- What each function of grlib_loggrspw.c appends to the file of a core that is open.
use mathlib.Core.List.{append_assoc, append-nil}
use qemu_spacewire.Base.{
  ℕ, ◌≡◌, sym, ap, arith, Bool, true, false, List, [], ◌++◌, some, get_elem?, get_elem?-set_self,
  set, set_twice, set_same, index_lt, ◌==◌, if◌then◌else◌,
}
use qemu_spacewire.Host.{LogEntry, trace_readreg, trace_writereg, check_warning}
use qemu_spacewire.Log.{
  Files, Printer, ◌then◌, fprintf, codes, bitheader_text, bitfield_text, ctr_labels, sts_labels,
  chn_labels, print_bitfield, print_bitheader, print_ctrfield, print_stsfield, print_chnfield,
  readreg_line, writereg_line, print_readreg, print_writereg,
}

-- A printer that appends a text to the file of a core, where there is one.
pub record Prints (i : ℕ) (text : List ℕ) (f : Printer) : Type 0 where
  pub prints :
      (files : Files) (old : List ℕ)
      → get_elem? files i ≡ some (some old)
      → f files ≡ some (set files i (some (old ++ text)))

Prints-fprintf : (i : ℕ) (text : List ℕ) → Prints i text (fprintf i text)
unfolding fprintf
Prints-fprintf i text = record { prints = λ files old e. ground (arith, e) }

pub Prints-skip : (i : ℕ) → Prints i [] (λ files. some files)
Prints-skip i = record {
  prints =
      λ files old e. ap some (sym (set_same files i (some (old ++ [])) (rw (append-nil old) e)));
}

Prints-then :
    (i : ℕ) (t u : List ℕ) (f g : Printer)
    → Prints i t f
    → Prints i u g
    → Prints i (t ++ u) (f then g)
unfolding ◌then◌
Prints-then i t u f g p q = record {
  prints = λ files old e.
      let mid = set files i (some (old ++ t)) in
      let got = get_elem?-set_self files i (some (old ++ t)) (index_lt files i _ e) in
      let last = q.prints mid (old ++ t) got in
      let twice = set_twice files i (some (old ++ t)) (some ((old ++ t) ++ u)) in
      ground (arith, p.prints files old e, last, twice, append_assoc old t u);
}

Prints-if :
    (b : Bool) (i : ℕ) (t u : List ℕ) (f g : Printer)
    → Prints i t f
    → Prints i u g
    → Prints i (if b then t else u) (if b then f else g)
Prints-if true i t u f g p q = p
Prints-if false i t u f g p q = q

-- The texts of the traces, as they follow each other in a file.
abbrev field_text : List ℕ → List ℕ → ℕ → List ℕ
field_text title labels x = ((title ++ bitheader_text) ++ labels) ++ bitfield_text x

abbrev read_detail : ℕ → ℕ → List ℕ
read_detail offset x =
    if offset == 0x00
    then field_text (codes "SPWCTR\n") ctr_labels x
    else if offset == 0x04
    then field_text (codes "SPWSTS\n") sts_labels x
    else if offset == 0x20
    then field_text (codes "SPWCHN\n") chn_labels x
    else []

abbrev written_detail : ℕ → ℕ → ℕ → List ℕ
written_detail offset x result =
    if offset == 0x00
    then field_text (codes "SPWCTR\n") ctr_labels x ++ bitfield_text result
    else if offset == 0x04
    then field_text (codes "SPWSTS\n") sts_labels x ++ bitfield_text result
    else if offset == 0x20
    then field_text (codes "SPWCHN\n") chn_labels x ++ bitfield_text result
    else []

abbrev pub entry_text : LogEntry → List ℕ
entry_text (trace_readreg i offset x) = readreg_line i offset x ++ read_detail offset x
entry_text (trace_writereg i offset x result) =
    writereg_line i offset x result ++ written_detail offset x result
entry_text (check_warning w) = []

Prints-bitfield : (i x : ℕ) → Prints i (bitfield_text x) (print_bitfield i x)
unfolding print_bitfield
Prints-bitfield i x = Prints-fprintf i (bitfield_text x)

-- The title, the numbers of the bits, their names and the bits.
Prints-field :
    (i x : ℕ) (title labels : List ℕ)
    → Prints i
        (field_text title labels x)
        (fprintf i title then print_bitheader i then fprintf i labels then print_bitfield i x)
unfolding print_bitheader
Prints-field i x title labels =
    Prints-then i ((title ++ bitheader_text) ++ labels) (bitfield_text x) _ _
      (Prints-then i (title ++ bitheader_text) labels _ _
        (Prints-then i title bitheader_text _ _ (Prints-fprintf i title)
          (Prints-fprintf i bitheader_text))
        (Prints-fprintf i labels))
      (Prints-bitfield i x)

Prints-field_bits :
    (i x result : ℕ) (t : List ℕ) (f : Printer)
    → Prints i t f
    → Prints i (t ++ bitfield_text result) (f then print_bitfield i result)
Prints-field_bits i x result t f p =
    Prints-then i t (bitfield_text result) f _ p (Prints-bitfield i result)

pub Prints-readreg :
    (i offset x : ℕ) → Prints i (entry_text (trace_readreg i offset x)) (print_readreg i offset x)
unfolding print_readreg print_ctrfield print_stsfield print_chnfield
Prints-readreg i offset x =
    Prints-then i (readreg_line i offset x) (read_detail offset x) _ _ (Prints-fprintf i _) (
      Prints-if (offset == 0x00) i _ _ _ _ (Prints-field i x _ _) (
        Prints-if (offset == 0x04) i _ _ _ _ (Prints-field i x _ _)
          (Prints-if (offset == 0x20) i _ _ _ _ (Prints-field i x _ _) (Prints-skip i))))

pub Prints-writereg :
    (i offset x result : ℕ)
    → Prints i (entry_text (trace_writereg i offset x result)) (print_writereg i offset x result)
unfolding print_writereg print_ctrfield print_stsfield print_chnfield
Prints-writereg i offset x result =
    Prints-then i (writereg_line i offset x result) (written_detail offset x result) _ _
      (Prints-fprintf i _)
      (Prints-if (offset == 0x00) i _ _ _ _
        (Prints-field_bits i x result _ _ (Prints-field i x _ _))
        (Prints-if (offset == 0x04) i _ _ _ _
          (Prints-field_bits i x result _ _ (Prints-field i x _ _))
          (Prints-if (offset == 0x20) i _ _ _ _
            (Prints-field_bits i x result _ _ (Prints-field i x _ _)) (Prints-skip i))))
