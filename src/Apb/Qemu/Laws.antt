-- ===== src/Apb/Qemu/Laws.antt =====
-- What QEMU documents of the calls that register the device.
use Prim.Native.String.{String}
use mathlib.Core.List.{append_assoc, append-nil}
use qemu_spacewire.Base.{
  ℕ, zero, suc, ◌≡◌, ◌≢◌, ap, ◌∙◌, length, List, [], ◌∷◌, ◌++◌, map, All, Option, some,
}
use qemu_spacewire.Host.{Platform}
use qemu_spacewire.Com.{Device}
use qemu_spacewire.Apb.{init_core, init_cores}
use qemu_spacewire.Apb.Qemu.{Irq, core_irq, apb_irq, MemoryRegionOps, ChrHandlers, Qemu, GrspwCore}

pub record Region (p : Platform) (W : Type 0) : Type 0 where
  pub ops : MemoryRegionOps p W
  pub name : String
  pub size : ℕ

-- What QEMU's documentation speaks of: the interrupt lines of the device by their number, the
-- character devices that there are, the handlers in the order they were attached, the region that was
-- initialised last, and the regions by their number.
pub record Seen (p : Platform) (W Chr : Type 0) : Type 0 where
  pub lines : List Irq
  pub chrs : List Chr
  pub attached : List (Chr × ChrHandlers)
  pub region : Option (Region p W)
  pub mmio : List (Region p W)

-- What it documents of the calls: a line and a region get the next number, and memory that is
-- allocated is new.
pub record IsQemu {p : Platform} {W : Type 0} (q : Qemu p W) (see : q.State → Seen p W q.Chr)
    : Type 0 where
  pub inits_irq :
      (s : q.State) (i : Irq)
      → see (q.sysbus_init_irq s i) ≡ record (see s) { lines = (see s).lines ++ (i ∷ []) }
  pub allocates :
      (s : q.State)
      → let made = q.g_malloc0 s in
        (see made.1 ≡ record (see s) { chrs = (see s).chrs ++ (made.0 ∷ []) })
        × All (λ old. made.0 ≢ old) (see s).chrs
  pub attaches :
      (s : q.State) (c : q.Chr) (handlers : ChrHandlers)
      → see (q.qemu_chr_add_handlers s c handlers)
        ≡ record (see s) { attached = (see s).attached ++ ((c, handlers) ∷ []) }
  pub inits_region :
      (s : q.State) (ops : MemoryRegionOps p W) (name : String) (size : ℕ)
      → see (q.memory_region_init_io s ops name size)
        ≡ record (see s) { region = some (record { ops = ops; name = name; size = size }) }
  pub maps :
      (s : q.State) (r : Region p W)
      → (see s).region ≡ some r
      → see (q.sysbus_init_mmio s) ≡ record (see s) { mmio = (see s).mmio ++ (r ∷ []) }

-- The lines of the cores from `i` on.
abbrev pub core_irqs : ℕ → ℕ → List Irq
core_irqs i zero = []
core_irqs i (suc n) = core_irq i ∷ core_irqs (suc i) n

module _ {A : Type 0} where
  -- None of `made` is in `old`.
  abbrev pub AreOthers : List A → List A → Type 0
  AreOthers old made = All (λ c. All (λ o. c ≢ o) old) made

  All-front : (P : A → Type 0) (xs ys : List A) → All P (xs ++ ys) → All P xs
  All-front P [] ys a = tt
  All-front P (x ∷ xs) ys a = (a.0, All-front P xs ys a.1)

  pub AreOthers-front : (xs ys made : List A) → AreOthers (xs ++ ys) made → AreOthers xs made
  AreOthers-front xs ys [] a = tt
  AreOthers-front xs ys (c ∷ made) a =
      (All-front (λ o. c ≢ o) xs ys a.0, AreOthers-front xs ys made a.1)

module _ {p : Platform} {W Chr : Type 0} where
  -- What QEMU has after cores were connected, with the character devices `made`.
  abbrev pub after_cores :
      Seen p W Chr → List Irq → List Chr → List (Chr × ChrHandlers) → Seen p W Chr
  after_cores v irqs made attached = record v {
    lines = v.lines ++ irqs;
    chrs = v.chrs ++ made;
    attached = v.attached ++ attached;
  }

  pub after_cores-nil : (v : Seen p W Chr) → v ≡ after_cores v [] [] []
  after_cores-nil v = cc (append-nil v.lines, append-nil v.chrs, append-nil v.attached)

  pub after_cores-append :
      (v : Seen p W Chr) (irqs irqs' : List Irq) (made made' : List Chr)
      (attached attached' : List (Chr × ChrHandlers))
      → after_cores (after_cores v irqs made attached) irqs' made' attached'
        ≡ after_cores v (irqs ++ irqs') (made ++ made') (attached ++ attached')
  after_cores-append v irqs irqs' made made' attached attached' = cc (
    append_assoc v.lines irqs irqs',
    append_assoc v.chrs made made',
    append_assoc v.attached attached attached',
  )

module _ {p : Platform} {W : Type 0} {q : Qemu p W} where
  -- The devices and the character devices of cores.
  abbrev pub devices : List (GrspwCore q) → List Device
  devices cores = map (λ c. c.device) cores

  abbrev pub chrs_of : List (GrspwCore q) → List (Option q.Chr)
  chrs_of cores = map (λ c. c.chr) cores

  -- `made` are the character devices of connected cores, and none of them was there before.
  abbrev pub AreNew : Seen p W q.Chr → List (GrspwCore q) → List q.Chr → Type 0
  AreNew v cores made = (chrs_of cores ≡ map some made) × AreOthers v.chrs made

-- What a round of the loop does with the character device `c`: it attaches the handlers `f c`.
abbrev pub attached_to : {A B : Type 0} → (A → List B) → List A → List B
attached_to f [] = []
attached_to f (c ∷ made) = f c ++ attached_to f made

module _ {p : Platform} {W : Type 0} {q : Qemu p W} (see : q.State → Seen p W q.Chr) where
  -- The calls after the loop.
  pub mapped-see :
      (x : IsQemu q see) (s : q.State) (ops : MemoryRegionOps p W) (size : ℕ)
      → see (
          q.sysbus_init_mmio
            (q.memory_region_init_io (q.sysbus_init_irq s apb_irq) ops "grspw" size))
        ≡ record (see s) {
          lines = (see s).lines ++ (apb_irq ∷ []);
          region = some (record { ops = ops; name = "grspw"; size = size });
          mmio = (see s).mmio ++ (record { ops = ops; name = "grspw"; size = size } ∷ []);
        }
  mapped-see x s ops size =
      let s₁ = q.sysbus_init_irq s apb_irq in
      let s₂ = q.memory_region_init_io s₁ ops "grspw" size in
      let lined = x.inits_irq s apb_irq in
      let region = x.inits_region s₁ ops "grspw" size in
      let mapped = x.maps s₂ _ (ap (λ v. v.region) region) in cc (lined, region, mapped)

  -- A loop over the cores, by what one round does and by its two equations.
  module _ (f : q.Chr → List (q.Chr × ChrHandlers))
      (round : ℕ → GrspwCore q → q.State → GrspwCore q × q.State)
      (loop : ℕ → List (GrspwCore q) → q.State → List (GrspwCore q) × q.State) where
    abbrev pub Connects : Type 0
    Connects =
        (i : ℕ) (c : GrspwCore q) (s : q.State)
        → (made : q.Chr) × All (λ old. made ≢ old) (see s).chrs
          × ((round i c s).0 ≡ record { chr = some made; device = init_core i c.device })
          × (see (round i c s).1 ≡ after_cores (see s) (core_irq i ∷ []) (made ∷ []) (f made))

    abbrev pub IsLoop : Type 0
    IsLoop =
        ((i : ℕ) (s : q.State) → loop i [] s ≡ ([], s))
        × ((i : ℕ) (c : GrspwCore q) (cores : List (GrspwCore q)) (s : q.State)
            → loop i (c ∷ cores) s ≡ (
              (round i c s).0 ∷ (loop (suc i) cores (round i c s).1).0,
              (loop (suc i) cores (round i c s).1).1,
            ))

    pub loop-see :
        (connects : Connects) (is_loop : IsLoop) (i : ℕ) (cores : List (GrspwCore q)) (s : q.State)
        → (devices (loop i cores s).0 ≡ init_cores i (devices cores))
          × (made : List q.Chr) × AreNew (see s) (loop i cores s).0 made
          × (see (loop i cores s).1
              ≡ after_cores (see s) (core_irqs i (length cores)) made (attached_to f made))
    unfolding init_cores
    loop-see connects is_loop i [] s =
        let e = is_loop.0 i s in
        (cc e, [], (cc e, tt), ap (λ r. see r.1) e ∙ after_cores-nil (see s))
    loop-see connects is_loop i (c ∷ cores) s =
        let e = is_loop.1 i c cores s in
        let (m, new, core, seen) = connects i c s in
        let (same, made, (chrs, others), rest) =
          loop-see connects is_loop (suc i) cores (round i c s).1 in
        let others' = rw (ap (λ v. v.chrs) seen) at others in
        (
          cc (e, core, same),
          m ∷ made,
          (cc (e, core, chrs), (new, AreOthers-front (see s).chrs (m ∷ []) made others')),
          ap (λ r. see r.1) e
              ∙ (rest
                  ∙ (ap
                        (λ v.
                          after_cores v (core_irqs (suc i) (length cores)) made
                            (attached_to f made))
                        seen
                      ∙ after_cores-append (see s) (core_irq i ∷ []) _ (m ∷ []) made (f m)
                          (attached_to f made))),
        )
