-- ===== src/Log.antt =====
-- grspw/grlib_loggrspw.c: the text of the traces, and the log file of each core.
pub mod Bitfield
pub mod Prints
pub mod Files
pub mod Numeral
pub mod Unopened
mod Tests
use Prim.Native.Char.{code}
use Prim.Native.String.{String}
use qemu_spacewire.Base.{
  ℕ, zero, suc, ◌+◌, ◌/◌, ◌%◌, ◌^◌, Bool, true, false, List, [], ◌∷◌, ◌++◌, Option, none, some,
  get_elem?, set, ltb, ◌==◌, if◌then◌else◌,
}
use qemu_spacewire.Host.{LogEntry, trace_readreg, trace_writereg, check_warning}

-- The characters of a literal. A text is a list of characters.
abbrev pub codes : String → List ℕ
codes String.[] = []
codes (String.◌∷◌ c s) = code c ∷ codes s

-- The files of `grspw_log`, each with its text, or `none` for the null pointer of an fopen that
-- failed.
abbrev pub Files : Type 0
Files = List (Option (List ℕ))

-- What a function does to the files; `none` is a file that does not exist.
abbrev pub Printer : Type 0
Printer = Files → Option Files

-- A `;`.
infixl 5 ◌then◌
unfoldable pub ◌then◌ : Printer → Printer → Printer
◌then◌ f g files = elim (f files) [ none ↦ none | some files' ↦ g files' ]

-- `fprintf` to the file of a core, with the text that its format makes.
unfoldable pub fprintf : ℕ → List ℕ → Printer
fprintf grspw_id text files = elim (get_elem? files grspw_id) [
  | some (some old) ↦ some (set files grspw_id (some (old ++ text)))
  | _ ↦ none
]

abbrev pub digit : ℕ → ℕ
digit d = if ltb d 10 then d + b'0' else d + 87

-- `%d` and `%x` of a number that has at most `width` digits.
unfoldable pub numeral : ℕ → ℕ → ℕ → List ℕ
numeral base zero n = []
numeral base (suc width) n =
    let front = numeral base width (n / base) in
    if ltb n base then digit n ∷ [] else front ++ (digit (n % base) ∷ [])

-- REGISTER_STR.
unfoldable pub register_str : ℕ → List ℕ
register_str offset =
    if offset == 0x00
    then codes "SPWCTR 0x00"
    else if offset == 0x04
    then codes "SPWSTR 0x04"
    else if offset == 0x08
    then codes "SPWNDR 0x08"
    else if offset == 0x0c
    then codes "SPWCLK 0x0C"
    else if offset == 0x10
    then codes "SPWKEY 0x10"
    else if offset == 0x14
    then codes "SPWTIM 0x14"
    else if offset == 0x18
    then codes "SPWTDR 0x18"
    else if offset == 0x20
    then codes "SPWCHN 0x20"
    else if offset == 0x24
    then codes "SPWRXL 0x24"
    else if offset == 0x28
    then codes "SPWTXD 0x28"
    else if offset == 0x2c
    then codes "SPWRXD 0x2C"
    else codes "unknown"

abbrev pub getbit : ℕ → ℕ → ℕ
getbit x i = x / 2 ^ i % 2

-- `%d\t` of the bits with the given numbers.
abbrev pub cells : ℕ → List ℕ → List ℕ
cells x [] = []
cells x (i ∷ is) = digit (getbit x i) ∷ (b'\t' ∷ cells x is)

-- The blanks of the continuation lines in the format of grlib_loggrspw_print_bitfield.
abbrev pub indent : List ℕ
indent = codes "      "

unfoldable pub bitfield_text : ℕ → List ℕ
bitfield_text x =
    cells x (31 ∷ 30 ∷ 29 ∷ 28 ∷ [])
    ++ (indent
        ++ (cells x (27 ∷ 26 ∷ 25 ∷ 24 ∷ 23 ∷ 22 ∷ 21 ∷ [])
            ++ (indent
                ++ (cells x (20 ∷ 19 ∷ 18 ∷ 17 ∷ 16 ∷ 15 ∷ 14 ∷ [])
                    ++ (indent
                        ++ (cells x (13 ∷ 12 ∷ 11 ∷ 10 ∷ 9 ∷ 8 ∷ 7 ∷ [])
                            ++ (indent
                                ++ (cells x (6 ∷ 5 ∷ 4 ∷ 3 ∷ 2 ∷ 1 ∷ 0 ∷ []) ++ codes "\n"))))))))

abbrev pub bitheader_text : List ℕ
bitheader_text =
    codes
      "31\t30\t29\t28\t27\t26\t25\t24\t23\t22\t21\t20\t19\t18\t17\t16\t15\t14\t13\t12\t11\t10\t9\t8\t7\t6\t5\t4\t3\t2\t1\t0\n"

abbrev pub ctr_labels : List ℕ
ctr_labels =
    codes
      "RA\tRX\tRC\t-\t-\t-\t-\t-\t-\t-\t-\t-\t-\t-\tRD\tRE\t-\t-\t-\t-\tTR\tTT\tLI\tTQ\t-\tRS\tOPM\tTI\tIE\tAS\tLS\tLD\n"

abbrev pub sts_labels : List ℕ
sts_labels =
    codes
      "-\t-\t-\t-\t-\t-\t-\t-\tLS\t\t\t-\t-\t-\t-\t-\t-\t-\t-\t-\t-\t-\t-\tEE\tIA\tWE\t-\tPE\tDE\tER\tCE\tTO\n"

abbrev pub chn_labels : List ℕ
chn_labels =
    codes
      "-\t-\t-\t-\t-\t-\t-\t-\t-\t-\t-\t-\t-\t-\t-\tLE\t-\t-\t-\tNS\tRD\tRX\tAT\tRA\tTA\tPR\tPS\tAI\tRI\tTI\tRE\tTE\n"

unfoldable pub print_bitfield : ℕ → ℕ → Printer
print_bitfield grspw_id x = fprintf grspw_id (bitfield_text x)

unfoldable pub print_bitheader : ℕ → Printer
print_bitheader grspw_id = fprintf grspw_id bitheader_text

unfoldable pub print_ctrfield : ℕ → ℕ → Printer
print_ctrfield grspw_id x =
    fprintf grspw_id (codes "SPWCTR\n")
    then print_bitheader grspw_id
    then fprintf grspw_id ctr_labels
    then print_bitfield grspw_id x

unfoldable pub print_stsfield : ℕ → ℕ → Printer
print_stsfield grspw_id x =
    fprintf grspw_id (codes "SPWSTS\n")
    then print_bitheader grspw_id
    then fprintf grspw_id sts_labels
    then print_bitfield grspw_id x

unfoldable pub print_chnfield : ℕ → ℕ → Printer
print_chnfield grspw_id x =
    fprintf grspw_id (codes "SPWCHN\n")
    then print_bitheader grspw_id
    then fprintf grspw_id chn_labels
    then print_bitfield grspw_id x

-- The first lines of the two traces.
abbrev pub readreg_line : ℕ → ℕ → ℕ → List ℕ
readreg_line grspw_id offset x =
    codes "READ  [ CORE "
    ++ (numeral 10 10 grspw_id
        ++ (codes " ] REGISTER "
            ++ (register_str offset ++ (codes " = " ++ (numeral 16 8 x ++ codes "\n")))))

abbrev pub writereg_line : ℕ → ℕ → ℕ → ℕ → List ℕ
writereg_line grspw_id offset x result =
    codes "WRITE [ CORE "
    ++ (numeral 10 10 grspw_id
        ++ (codes " ] REGISTER "
            ++ (register_str offset
                ++ (codes " = "
                    ++ (numeral 16 8 x ++ (codes " -> " ++ (numeral 16 8 result ++ codes "\n")))))))

abbrev skip : Printer
skip files = some files

unfoldable pub print_readreg : ℕ → ℕ → ℕ → Printer
print_readreg grspw_id offset x =
    fprintf grspw_id (readreg_line grspw_id offset x)
    then (if offset == 0x00
        then print_ctrfield grspw_id x
        else if offset == 0x04
        then print_stsfield grspw_id x
        else if offset == 0x20
        then print_chnfield grspw_id x
        else skip)

unfoldable pub print_writereg : ℕ → ℕ → ℕ → ℕ → Printer
print_writereg grspw_id offset x result =
    fprintf grspw_id (writereg_line grspw_id offset x result)
    then (if offset == 0x00
        then (print_ctrfield grspw_id x then print_bitfield grspw_id result)
        else if offset == 0x04
        then (print_stsfield grspw_id x then print_bitfield grspw_id result)
        else if offset == 0x20
        then (print_chnfield grspw_id x then print_bitfield grspw_id result)
        else skip)

-- One entry of the log of the process. A warning goes to the standard error stream.
unfoldable pub print_entry : LogEntry → Printer
print_entry (trace_readreg grspw_id offset x) = print_readreg grspw_id offset x
print_entry (trace_writereg grspw_id offset x result) = print_writereg grspw_id offset x result
print_entry (check_warning w) = skip

-- The log of the process, which has its newest entry first.
unfoldable pub print_log : List LogEntry → Printer
print_log [] = skip
print_log (entry ∷ older) = print_log older then print_entry entry

-- grlib_loggrspw_init, where `opens` tells for each core whether its path can be opened for writing.
unfoldable pub loggrspw_init : (ℕ → Bool) → Files
loggrspw_init opens =
    let fopen : ℕ → Option (List ℕ) = λ core. if opens core then some [] else none in
    fopen 0 ∷ (fopen 1 ∷ (fopen 2 ∷ (fopen 3 ∷ [])))
