-- ===== src/Outcome.antt =====
-- How a call ends: with a value, or with the end of the process by a panic or by glog.Fatalf.
use lbex.Prelude.{String, ◌≡◌, refl}

pub data Halt : Type 0 where
  nil_dereference type_assertion index_out_of_range panicked : Halt
  fatal : String → Halt

pub data Outcome {ℓ} (A : Type ℓ) : Type ℓ where
  done : A → Outcome A
  halt : Halt → Outcome A

infixl 5 ◌>>=◌
abbrev pub ◌>>=◌ {ℓ κ} : {A : Type ℓ} {B : Type κ} → Outcome A → (A → Outcome B) → Outcome B
done a >>= f = f a
halt e >>= f = halt e

-- A sequence of calls ends with a value if each of them does, and only then.
pub bind-done {ℓ κ} :
    {A : Type ℓ} {B : Type κ} (r : Outcome A) (f : A → Outcome B) (b : B)
    → (r >>= f) ≡ done b
    → (a : A) × (r ≡ done a) × (f a ≡ done b)
bind-done (done a) f b h = (a, refl, h)
bind-done (halt e) f b h = cc

pub done-injective {ℓ} : {A : Type ℓ} {a b : A} → done a ≡ done b → a ≡ b
done-injective e = cc
