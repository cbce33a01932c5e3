-- ===== src/Mq/Lifecycle/Sample.antt =====
-- A system of queues that runs: the queues by their names, and a table of descriptors.
use Prim.Native.String.{String}
use text.Mathlib.Text.{◌==◌}
use text.Mathlib.TextEquality.{eq_iff}
use text.Mathlib.TextPositions.{eq_refl}
use qemu_spacewire.Base.{
  ℕ, zero, suc, ◌≡◌, ◌≢◌, refl, sym, ◌∙◌, ap, arith, List, [], ◌∷◌, ◌++◌, length, get_elem?,
  get_elem?-set_ne, set, Option, none, some, if◌then◌else◌,
}
use qemu_spacewire.Mq.Lifecycle.{MqAttr, OpenMode, Posix, Process, attr, o_wronly, o_rdonly}
use qemu_spacewire.Mq.Lifecycle.Laws.{View, IsPosix}

abbrev pub Opened : Type 0
Opened = Option (String × OpenMode)

pub record Kernel : Type 0 where
  pub queues : String → Option MqAttr
  pub opened : List Opened

abbrev pub with_queue : (String → Option MqAttr) → String → Option MqAttr → String → Option MqAttr
with_queue queues name q other = if other == name then q else queues other

abbrev open_queue : Kernel → String → OpenMode → Option MqAttr → Option MqAttr → Option (ℕ × Kernel)
open_queue s name mode (some a) made =
    some (length s.opened, record s { opened = s.opened ++ (some (name, mode) ∷ []) })
open_queue s name mode none (some a) = some (
  length s.opened,
  record {
    queues = with_queue s.queues name (some a);
    opened = s.opened ++ (some (name, mode) ∷ []);
  },
)
open_queue s name mode none none = none

abbrev close_queue : Kernel → ℕ → Option Opened → Option Kernel
close_queue s d (some (some x)) = some (record s { opened = set s.opened d none })
close_queue s d _ = none

abbrev unlink_queue : Kernel → String → Option MqAttr → Option Kernel
unlink_queue s name (some a) = some (record s { queues = with_queue s.queues name none })
unlink_queue s name none = none

abbrev pub sample_calls : Posix
sample_calls = record {
  State = Kernel;
  Descriptor = ℕ;
  mq_open = λ s name mode made. open_queue s name mode (s.queues name) made;
  mq_close = λ s d. close_queue s d (get_elem? s.opened d);
  mq_unlink = λ s name. unlink_queue s name (s.queues name);
}

abbrev pub join : Option Opened → Opened
join none = none
join (some x) = x

abbrev pub refers_of : Kernel → ℕ → Opened
refers_of s d = join (get_elem? s.opened d)

last_refers : (xs : List Opened) (x : Opened) → join (get_elem? (xs ++ (x ∷ [])) (length xs)) ≡ x
last_refers [] x = refl
last_refers (y ∷ xs) x = last_refers xs x

earlier_refers :
    (xs : List Opened) (x : Opened) (d : ℕ) (y : String × OpenMode)
    → join (get_elem? xs d) ≡ some y
    → join (get_elem? (xs ++ (x ∷ [])) d) ≡ some y
earlier_refers [] x d y e = ground (arith, e)
earlier_refers (z ∷ xs) x zero y e = e
earlier_refers (z ∷ xs) x (suc d) y e = earlier_refers xs x d y e

with_queue_self :
    (queues : String → Option MqAttr) (name : String) (q : Option MqAttr)
    → with_queue queues name q name ≡ q
with_queue_self queues name q = rw (eq_refl name) refl

with_queue-other :
    (queues : String → Option MqAttr) (name other : String) (q : Option MqAttr)
    → other ≢ name
    → with_queue queues name q other ≡ queues other
with_queue-other queues name other q ne = ground (arith, eq_iff other name, ne)

-- What a successful open leaves: the new descriptor is the last one, and the queues are as before but
-- for the name where it had none.
abbrev after_open : Kernel → String → Option MqAttr → Option MqAttr → String → Option MqAttr
after_open s name (some a) made = s.queues
after_open s name none made = with_queue s.queues name made

open_queue-inversion :
    (s s' : Kernel) (name : String) (mode : OpenMode) (q made : Option MqAttr) (d : ℕ)
    → open_queue s name mode q made ≡ some (d, s')
    → (length s.opened ≡ d)
      × (record { queues = after_open s name q made; opened = s.opened ++ (some (name, mode) ∷ []) }
          ≡ s')
open_queue-inversion s s' name mode (some a) made d e =
    let r : ℕ × Kernel =
      (length s.opened, record s { opened = s.opened ++ (some (name, mode) ∷ []) }) in
    let w : r ≡ (d, s') = cc e in (ap (λ r. r.0) w, ap (λ r. r.1) w)
open_queue-inversion s s' name mode none (some a) d e =
    let r : ℕ × Kernel = (
      length s.opened,
      record {
        queues = with_queue s.queues name (some a);
        opened = s.opened ++ (some (name, mode) ∷ []);
      },
    ) in
    let w : r ≡ (d, s') = cc e in (ap (λ r. r.0) w, ap (λ r. r.1) w)
open_queue-inversion s s' name mode none none d e = absurd (ground (arith, e))

after_open-other :
    (s : Kernel) (name other : String) (q made : Option MqAttr)
    → other ≢ name
    → after_open s name q made other ≡ s.queues other
after_open-other s name other (some a) made ne = refl
after_open-other s name other none made ne = with_queue-other s.queues name other made ne

close_queue-some :
    (s : Kernel) (d : ℕ) (x : String × OpenMode) (o : Option Opened)
    → join o ≡ some x
    → close_queue s d o ≡ some (record s { opened = set s.opened d none })
close_queue-some s d x (some (some y)) e = refl
close_queue-some s d x (some none) e = absurd (ground (arith, e))
close_queue-some s d x none e = absurd (ground (arith, e))

unlink_queue-inversion :
    (s s' : Kernel) (name : String) (q : Option MqAttr)
    → unlink_queue s name q ≡ some s'
    → s' ≡ record s { queues = with_queue s.queues name none }
unlink_queue-inversion s s' name (some a) e = cc e
unlink_queue-inversion s s' name none e = absurd (ground (arith, e))

abbrev pub sample_view : View sample_calls
sample_view = record { queue_of = λ s name. s.queues name; refers = refers_of }

pub sample_calls-IsPosix : IsPosix sample_view
sample_calls-IsPosix = record {
  open_missing = λ s name mode e. ground (arith, e);
  open_makes = λ s s' name mode a d e o.
      let (_, w) = open_queue-inversion s s' name mode (s.queues name) (some a) d o in
      let q = with_queue_self s.queues name (some a) in
      let same : after_open s name (s.queues name) (some a) name ≡ some a =
        ap (λ v. after_open s name v (some a) name) e ∙ q in
      ap (λ t. t.queues name) (sym w) ∙ same;
  open_finds = λ s s' name mode made a d e o.
      let (_, w) = open_queue-inversion s s' name mode (s.queues name) made d o in
      let same : after_open s name (s.queues name) made name ≡ some a =
        ap (λ v. after_open s name v made name) e ∙ e in
      ap (λ t. t.queues name) (sym w) ∙ same;
  open_refers = λ s s' name mode made d o.
      let (n, w) = open_queue-inversion s s' name mode (s.queues name) made d o in
      ap (λ t. refers_of t d) (sym w)
      ∙ (ap (λ i. join (get_elem? (s.opened ++ (some (name, mode) ∷ [])) i)) (sym n)
          ∙ last_refers s.opened (some (name, mode)));
  open_keeps = λ s s' name mode made d o.
      let (_, w) = open_queue-inversion s s' name mode (s.queues name) made d o in
      (
        λ other ne.
            ap (λ t. t.queues other) (sym w)
            ∙ after_open-other s name other (s.queues name) made ne,
        λ e x f.
            ap (λ t. refers_of t e) (sym w) ∙ earlier_refers s.opened (some (name, mode)) e x f,
      );
  close_works = λ s d x e. (
    record s { opened = set s.opened d none },
    close_queue-some s d x (get_elem? s.opened d) e,
    λ name. refl,
    λ f ne. ap join (get_elem?-set_ne s.opened d f none (λ w. ne (sym w))),
  );
  unlink_removes = λ s s' name e.
      let w = unlink_queue-inversion s s' name (s.queues name) e in
      (
        ap (λ t. t.queues name) w ∙ with_queue_self s.queues name none,
        λ other ne. ap (λ t. t.queues other) w ∙ with_queue-other s.queues name other none ne,
        λ f. ap (λ t. refers_of t f) w,
      );
}

-- A system with no queue.
abbrev pub no_queues : Kernel
no_queues = record { queues = λ name. none; opened = [] }

-- A process before its first call.
abbrev pub unconnected : Kernel → Process sample_calls
unconnected s = record { spwq = 0; devq = 0; system = s }

abbrev pub both : Kernel
both = record {
  queues = with_queue (with_queue (λ name. none) "/spwq" (some attr)) "/devq" (some attr);
  opened = some ("/spwq", o_wronly) ∷ (some ("/devq", o_rdonly) ∷ []);
}

abbrev pub initialised : Process sample_calls
initialised = record { spwq = 0; devq = 1; system = both }
