-- ===== src/Apb/Qemu/Sample.antt =====
-- A QEMU that keeps what can be seen of it, with numbers for character devices.
use qemu_spacewire.Base.{
  ℕ, suc, ◌+◌, ◌<◌, ◌≢◌, refl, arith, List, [], ◌∷◌, ◌++◌, All, Option, none, some,
}
use qemu_spacewire.Host.{Platform}
use qemu_spacewire.Apb.Qemu.{Qemu, Grspw, GrspwCore, Posix, DeviceClass, fatal}
use qemu_spacewire.Com.Sample.{device}
use qemu_spacewire.Apb.Qemu.Laws.{Region, Seen, IsQemu}

abbrev pub total : List ℕ → ℕ
total [] = 0
total (x ∷ xs) = x + total xs

total-All : (bound : ℕ) (xs : List ℕ) → total xs < bound → All (λ old. bound ≢ old) xs
total-All bound [] lt = tt
total-All bound (x ∷ xs) lt =
    (λ same. omega (arith, lt, same), total-All bound xs (omega (arith, lt)))

module _ {p : Platform} {W : Type 0} where
  abbrev pub map_region : Seen p W ℕ → Option (Region p W) → Seen p W ℕ
  map_region v none = v
  map_region v (some r) = record v { mmio = v.mmio ++ (r ∷ []) }

  abbrev pub sample_qemu : Qemu p W
  sample_qemu = record {
    State = Seen p W ℕ;
    Chr = ℕ;
    sysbus_init_irq = λ v i. record v { lines = v.lines ++ (i ∷ []) };
    g_malloc0 = λ v. (suc (total v.chrs), record v { chrs = v.chrs ++ (suc (total v.chrs) ∷ []) });
    qemu_chr_add_handlers =
        λ v c handlers. record v { attached = v.attached ++ ((c, handlers) ∷ []) };
    memory_region_init_io = λ v ops name size. record v {
      region = some (record { ops = ops; name = name; size = size });
    };
    sysbus_init_mmio = λ v. map_region v v.region;
  }

  pub sample_qemu-IsQemu : IsQemu sample_qemu (λ v. v)
  sample_qemu-IsQemu = record {
    inits_irq = λ s i. refl;
    allocates = λ s. (refl, total-All (suc (total s.chrs)) s.chrs (omega arith));
    attaches = λ s c handlers. refl;
    inits_region = λ s ops name size. refl;
    maps = λ s r e. cc e;
  }

  -- A device of which nothing is registered, where QEMU has the character devices 5 and 9.
  abbrev pub unregistered : Seen p W ℕ
  unregistered = record { lines = []; chrs = 5 ∷ (9 ∷ []); attached = []; region = none; mmio = [] }

  -- A core to which a property gave the character device 9.
  abbrev with_chrdev : GrspwCore sample_qemu
  with_chrdev = record { chr = some 9; device = device }

  abbrev pub sample_grspw : Grspw sample_qemu
  sample_grspw = record {
    core = with_chrdev ∷ (with_chrdev ∷ (with_chrdev ∷ (with_chrdev ∷ [])));
    sys_freq_hz = 40000000;
    nb_core = 0;
  }

  -- A class before its initialisation.
  abbrev pub sample_class : {k : Posix} → DeviceClass sample_qemu k
  sample_class = record {
    init = λ g s process. fatal;
    reset = λ g. record g { core = [] };
    props = [];
  }
