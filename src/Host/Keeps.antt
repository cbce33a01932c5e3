-- ===== src/Host/Keeps.antt =====
-- C code that leaves a part of the process state as it was.
use qemu_spacewire.Base.{Bool, true, false, Option, none, some, ◌≡◌, ◌∙◌, arith, if◌then◌else◌}
use qemu_spacewire.Host.{Platform, Host, M, done, pure, ◌>>=◌, or_fault}
use qemu_spacewire.Host.Bind.{bind-done}

-- Wherever the code returns, `part` is as it was.
pub record Keeps {p : Platform} {A B : Type 0} (part : Host p → B) (m : M p A) : Type 0 where
  pub keeps : (h h' : Host p) (a : A) → m h ≡ done (a, h') → part h' ≡ part h

module _ {p : Platform} {B : Type 0} (part : Host p → B) where
  pub Keeps-pure : {A : Type 0} (a : A) → Keeps part (pure {p = p} a)
  Keeps-pure a = record { keeps = λ h h' b e. cc e }

  pub Keeps-bind :
      {A C : Type 0} {m : M p A} {f : A → M p C}
      → Keeps part m
      → ((a : A) → Keeps part (f a))
      → Keeps part (m >>= f)
  Keeps-bind {m} {f} s t = record {
    keeps = λ h h' c e.
        let (a, h₁, first, rest) = bind-done m f h e in
        (t a).keeps h₁ h' c rest ∙ s.keeps h h₁ a first;
  }

  pub Keeps-if :
      {A : Type 0} (c : Bool) {m n : M p A}
      → Keeps part m
      → Keeps part n
      → Keeps part (if c then m else n)
  Keeps-if true s t = s
  Keeps-if false s t = t

  pub Keeps-or_fault : {A : Type 0} (o : Option A) → Keeps part (or_fault {p = p} o)
  Keeps-or_fault none = record { keeps = λ h h' a e. ground arith }
  Keeps-or_fault (some b) = record { keeps = λ h h' a e. cc e }
