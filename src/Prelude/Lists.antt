-- ===== src/Prelude/Lists.antt =====
-- Lists under predicates by recursion, which the tactics read, and length over native numbers.
use Prim.Native.Nat.{ℕ, suc}
use mathlib.Core.Path.{◌≡◌, refl, ◌∙◌, sym, subst, ap}
use mathlib.Core.Logic.{◌⊎◌, inl, inr}
use mathlib.Core.Bool.{Bool, false, ◌||◌}
use mathlib.Core.List.{List, [], ◌∷◌, ◌++◌}
use mathlib.Core.List.{Permᴰ, map}
use mathlib.Core.List.Permᴰ

module _ {ℓ} {A : Type ℓ} where
  abbrev pub length : List A → ℕ
  length [] = 0
  length (x ∷ xs) = suc (length xs)

  abbrev pub any : (A → Bool) → List A → Bool
  any p [] = false
  any p (x ∷ xs) = p x || any p xs

module _ {ℓ κ} {A : Type ℓ} (P : A → Type κ) where
  -- Every item has the property.
  abbrev pub All : List A → Type κ
  All [] = Unit
  All (x ∷ xs) = P x × All xs

  pub All-append : (xs ys : List A) → All xs → All ys → All (xs ++ ys)
  All-append [] ys h k = k
  All-append (x ∷ xs) ys (p, h) k = (p, All-append xs ys h k)

  pub All-perm : {xs ys : List A} → Permᴰ xs ys → All xs → All ys
  All-perm Permᴰ.nil h = tt
  All-perm (Permᴰ.cons e r) (p, h) = (subst P e p, All-perm r h)
  All-perm (Permᴰ.swap e f) (p, (q, h)) = (subst P f q, (subst P e p, h))
  All-perm (Permᴰ.trans r s) h = All-perm s (All-perm r h)

pub All-imp {ℓ κ} :
    {A : Type ℓ} {P Q : A → Type κ} → ((a : A) → P a → Q a) → (xs : List A) → All P xs → All Q xs
All-imp f [] h = tt
All-imp f (x ∷ xs) (p, h) = (f x p, All-imp f xs h)

module _ {A : Type 0} where
  -- `x` is an item of the list.
  abbrev pub Elem : A → List A → Type 0
  Elem x [] = ⊥
  Elem x (y ∷ ys) = (x ≡ y) ⊎ Elem x ys

  pub Elem-append : (x : A) (xs ys : List A) → Elem x xs ⊎ Elem x ys → Elem x (xs ++ ys)
  Elem-append x [] ys (inl h) = absurd h
  Elem-append x [] ys (inr h) = h
  Elem-append x (y ∷ xs) ys (inl (inl h)) = inl h
  Elem-append x (y ∷ xs) ys (inl (inr h)) = inr (Elem-append x xs ys (inl h))
  Elem-append x (y ∷ xs) ys (inr h) = inr (Elem-append x xs ys (inr h))

  pub append-Elem : (x : A) (xs ys : List A) → Elem x (xs ++ ys) → Elem x xs ⊎ Elem x ys
  append-Elem x [] ys h = inr h
  append-Elem x (y ∷ xs) ys (inl h) = inl (inl h)
  append-Elem x (y ∷ xs) ys (inr h) = elim (append-Elem x xs ys h) [
    | inl k ↦ inl (inr k)
    | inr k ↦ inr k
  ]

  pub Elem-perm : (x : A) {xs ys : List A} → Permᴰ xs ys → Elem x xs → Elem x ys
  Elem-perm x Permᴰ.nil h = h
  Elem-perm x (Permᴰ.cons e r) (inl h) = inl (h ∙ e)
  Elem-perm x (Permᴰ.cons e r) (inr h) = inr (Elem-perm x r h)
  Elem-perm x (Permᴰ.swap e f) (inl h) = inr (inl (h ∙ e))
  Elem-perm x (Permᴰ.swap e f) (inr (inl h)) = inl (h ∙ f)
  Elem-perm x (Permᴰ.swap e f) (inr (inr h)) = inr (inr h)
  Elem-perm x (Permᴰ.trans r s) h = Elem-perm x s (Elem-perm x r h)

  -- No item stands twice.
  abbrev pub Distinct : List A → Type 0
  Distinct [] = Unit
  Distinct (x ∷ xs) = ¬ (Elem x xs) × Distinct xs

  pub Distinct-perm : {xs ys : List A} → Permᴰ xs ys → Distinct xs → Distinct ys
  Distinct-perm Permᴰ.nil h = tt
  Distinct-perm (Permᴰ.cons {l₁} e r) (fresh, h) = (
    λ k. fresh (subst (λ x. Elem x l₁) (sym e) (Elem-perm _ (Permᴰ.symm r) k)),
    Distinct-perm r h,
  )
  Distinct-perm (Permᴰ.swap {l} e f) (fresh, (fresh', h)) = (
    λ k. elim k [
      | inl same ↦ fresh (inl (e ∙ (sym same ∙ sym f)))
      | inr there ↦ fresh' (subst (λ x. Elem x l) (sym f) there)
    ],
    (λ k. fresh (inr (subst (λ x. Elem x l) (sym e) k)), h),
  )
  Distinct-perm (Permᴰ.trans r s) h = Distinct-perm s (Distinct-perm r h)

module _ {A B : Type 0} (f : A → B) where
  pub Elem-map : (x : A) (xs : List A) → Elem x xs → Elem (f x) (map f xs)
  Elem-map x [] h = absurd h
  Elem-map x (y ∷ ys) (inl e) = inl (ap f e)
  Elem-map x (y ∷ ys) (inr h) = inr (Elem-map x ys h)

  pub map-Elem : (y : B) (xs : List A) → Elem y (map f xs) → (x : A) × Elem x xs × (f x ≡ y)
  map-Elem y [] h = absurd h
  map-Elem y (x ∷ xs) (inl e) = (x, inl refl, sym e)
  map-Elem y (x ∷ xs) (inr h) = let (z, k, e) = map-Elem y xs h in (z, inr k, e)

  pub map-perm : {xs ys : List A} → Permᴰ xs ys → Permᴰ (map f xs) (map f ys)
  map-perm Permᴰ.nil = Permᴰ.nil
  map-perm (Permᴰ.cons e r) = Permᴰ.cons (ap f e) (map-perm r)
  map-perm (Permᴰ.swap e g) = Permᴰ.swap (ap f e) (ap f g)
  map-perm (Permᴰ.trans r s) = Permᴰ.trans (map-perm r) (map-perm s)
