-- ===== src/Host/Ensures.antt =====
-- What the results of C code satisfy wherever it returns.
use qemu_spacewire.Base.{Bool, true, false, Option, none, some, ◌≡◌, refl, arith, if◌then◌else◌}
use qemu_spacewire.Host.{Platform, Host, M, done, pure, ◌>>=◌, or_fault, check_fatal}
use qemu_spacewire.Host.Bind.{bind-done}
use qemu_spacewire.Host.Always.{Always, Anything}

-- From any state: if the code returns, its result satisfies `P`.
pub record Ensures {p : Platform} {A : Type 0} (P : A → Type 0) (m : M p A) : Type 0 where
  pub ensures : (h h' : Host p) (a : A) → m h ≡ done (a, h') → P a

module _ {p : Platform} where
  pub Ensures-pure : {A : Type 0} {P : A → Type 0} (a : A) → P a → Ensures P (pure {p = p} a)
  Ensures-pure {P} a x = record { ensures = λ h h' b e. let same : a ≡ b = cc in rw same at x }

  pub Ensures-bind :
      {A B : Type 0} {Q : A → Type 0} {P : B → Type 0} {m : M p A} {f : A → M p B}
      → Ensures Q m
      → ((a : A) → Q a → Ensures P (f a))
      → Ensures P (m >>= f)
  Ensures-bind {m} {f} s t = record {
    ensures = λ h h' b e.
        let (a, h₁, first, rest) = bind-done m f h e in
        (t a (s.ensures h h₁ a first)).ensures h₁ h' b rest;
  }

  pub Ensures-if :
      {A : Type 0} {P : A → Type 0} (c : Bool) {m n : M p A}
      → (c ≡ true → Ensures P m)
      → (c ≡ false → Ensures P n)
      → Ensures P (if c then m else n)
  Ensures-if true s t = s refl
  Ensures-if false s t = t refl

  pub Ensures-or_fault :
      {A : Type 0} {P : A → Type 0} (o : Option A)
      → ((a : A) → o ≡ some a → P a)
      → Ensures P (or_fault {p = p} o)
  Ensures-or_fault none x = record { ensures = λ h h' a e. ground arith }
  Ensures-or_fault (some b) x = record {
    ensures = λ h h' a e. let same : b ≡ a = cc in rw same at (x b refl);
  }

  pub Ensures-check_fatal : (c : Bool) → Ensures (λ _. c ≡ false) (check_fatal {p = p} c)
  Ensures-check_fatal true = record { ensures = λ h h' a e. ground arith }
  Ensures-check_fatal false = record { ensures = λ h h' a e. refl }

  pub Ensures-Anything : {A : Type 0} (m : M p A) → Ensures Anything m
  Ensures-Anything m = record { ensures = λ h h' a e. tt }

  -- Code that returns from every state has one result in each.
  pub Ensures-of_Always : {A : Type 0} {P : A → Type 0} {m : M p A} → Always P m → Ensures P m
  Ensures-of_Always {m} s = record {
    ensures = λ h h' a e.
        let (b, h₁, run, x) = s.returns h in let same : b ≡ a = cc (run, e) in rw same at x;
  }
