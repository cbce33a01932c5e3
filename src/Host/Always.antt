-- ===== src/Host/Always.antt =====
-- C code that returns whatever the state of the process, and what its results satisfy.
use qemu_spacewire.Base.{Bool, true, false, Option, some, ◌≡◌, refl, ◌∙◌, if◌then◌else◌}
use qemu_spacewire.Host.{Platform, Host, M, done, pure, ◌>>=◌, or_fault, append_log, LogEntry}
use qemu_spacewire.Host.Bind.{done-bind}

-- The predicate of code that only has to return.
abbrev pub Anything : {A : Type 0} → A → Type 0
Anything a = Unit {0}

-- From every state the code returns, and its result satisfies `P`.
pub record Always {p : Platform} {A : Type 0} (P : A → Type 0) (m : M p A) : Type 0 where
  pub returns : (h : Host p) → (a : A) × (h₁ : Host p) × (m h ≡ done (a, h₁)) × P a

module _ {p : Platform} where
  pub Always-pure : {A : Type 0} {P : A → Type 0} (a : A) → P a → Always P (pure {p = p} a)
  Always-pure a x = record { returns = λ h. (a, h, refl, x) }

  pub Always-bind :
      {A B : Type 0} {Q : A → Type 0} {P : B → Type 0} {m : M p A} {f : A → M p B}
      → Always Q m
      → ((a : A) → Q a → Always P (f a))
      → Always P (m >>= f)
  Always-bind {m} {f} s t = record {
    returns = λ h.
        let (a, h₁, e, q) = s.returns h in
        let (b, h₂, e', x) = (t a q).returns h₁ in (b, h₂, done-bind m f h h₁ a e ∙ e', x);
  }

  pub Always-if :
      {A : Type 0} {P : A → Type 0} (c : Bool) {m n : M p A}
      → (c ≡ true → Always P m)
      → (c ≡ false → Always P n)
      → Always P (if c then m else n)
  Always-if true s t = s refl
  Always-if false s t = t refl

  pub Always-or_fault :
      {A : Type 0} {P : A → Type 0} {o : Option A}
      → (a : A) × (o ≡ some a) × P a
      → Always P (or_fault {p = p} o)
  Always-or_fault (a, e, x) = record { returns = λ h. (a, h, rw e refl, x) }

  pub Always-append_log : (entry : LogEntry) → Always Anything (append_log {p = p} entry)
  Always-append_log entry = record { returns = λ h. (tt, _, refl, tt) }
