-- ===== src/Host/Bind.antt =====
-- Chains of C statements, taken apart.
use qemu_spacewire.Base.{◌≡◌, refl, arith}
use qemu_spacewire.Host.{Platform, Host, M, Outcome, done, fatal, fault, ◌>>=◌}

module _ {p : Platform} {A B : Type 0} where
  -- A chain that returns is one whose first part returns.
  pub bind-done :
      (m : M p A) (f : A → M p B) (h : Host p) {r : B × Host p}
      → (m >>= f) h ≡ done r
      → (a : A) × (h₁ : Host p) × (m h ≡ done (a, h₁)) × (f a h₁ ≡ done r)
  unfolding ◌>>=◌
  bind-done m f h {r} e = cases (m h) refl
    where
      cases :
          (o : Outcome (A × Host p))
          → m h ≡ o
          → (a : A) × (h₁ : Host p) × (m h ≡ done (a, h₁)) × (f a h₁ ≡ done r)
      cases (done (a, h₁)) k = (a, h₁, k, rw (k, ◌>>=◌) at e)
      cases fatal k = ground arith
      cases fault k = ground arith

  -- A chain goes on from where its first part returned.
  pub done-bind :
      (m : M p A) (f : A → M p B) (h h₁ : Host p) (a : A)
      → m h ≡ done (a, h₁)
      → (m >>= f) h ≡ f a h₁
  unfolding ◌>>=◌
  done-bind m f h h₁ a e = rw (e, ◌>>=◌) refl
