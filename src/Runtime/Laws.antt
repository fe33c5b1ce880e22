-- ===== src/Runtime/Laws.antt =====
-- The values of a map that are visited in a `range`, where each value carries its own key as a name.
use mathlib.Core.List.Permᴰ
use lbex.Prelude.{
  String, ◌≡◌, refl, sym, subst, ◌∙◌, ap, ◌↔◌, ◌≢◌, inl, inr, none, some, List, [], ◌∷◌, map, Elem,
  Elem-perm, Elem-map, map-Elem, map-perm, Distinct, Distinct-perm, All, Option-cases,
}
use lbex.Prelude.Dict.{Dict, get, IsMap, Elem-get, get-Elem}
use lbex.Runtime.{Runtime}

pub none-some : {A : Type 0} {a : A} → none ≢ some a
none-some e = cc

pub some-injective : {A : Type 0} {a b : A} → some a ≡ some b → a ≡ b
some-injective e = cc

pub Elem-All : {A : Type 0} (P : A → Type 0) (xs : List A) → ((x : A) → Elem x xs → P x) → All P xs
Elem-All P [] f = tt
Elem-All P (x ∷ xs) f = (f x (inl refl), Elem-All P xs (λ y there. f y (inr there)))

-- The values, in the order of the visit.
abbrev pub values : {V : Type 0} → Runtime → Dict V → List V
values rt m = map (λ entry. entry.1) (rt.visit _ 0 m)

module _ {V : Type 0} (name : V → String) where
  abbrev entry_value : String × V → V
  entry_value entry = entry.1

  abbrev entry_name : String × V → String
  entry_name entry = name entry.1

  -- Each value is held under its name.
  abbrev pub IsKeyed : Dict V → Type 0
  IsKeyed m = (k : String) (v : V) → get k m ≡ some v → name v ≡ k

  IsMap-Distinct :
      (m : Dict V)
      → IsMap m
      → ((entry : String × V) → Elem entry m → name entry.1 ≡ entry.0)
      → Distinct (map entry_name m)
  IsMap-Distinct [] u h = tt
  IsMap-Distinct ((k, v) ∷ m) (fresh, u) h = (
    λ twice.
        let (entry, there, e) = map-Elem entry_name (name v) m twice in
        let same_key : entry.0 ≡ k = sym (h entry (inr there)) ∙ (e ∙ h (k, v) (inl refl)) in
        cc (
          fresh,
          subst (λ j. get j m ≡ some entry.1) same_key (get-Elem entry.0 entry.1 m u there),
        ),
    IsMap-Distinct m u (λ entry there. h entry (inr there)),
  )

  map-map : (m : List (String × V)) → map name (map entry_value m) ≡ map entry_name m
  map-map [] = refl
  map-map (entry ∷ m) = ap (λ names. entry_name entry ∷ names) (map-map m)

  module _ (rt : Runtime) (m : Dict V) (unique : IsMap m) (keyed : IsKeyed m) where
    -- A value is visited if the map holds it under its name, and only then.
    pub values_iff : (v : V) → Elem v (values rt m) ↔ (get (name v) m ≡ some v)
    values_iff v = (
      λ h.
          let (entry, there, e) = map-Elem entry_value v (rt.visit V 0 m) h in
          let found : get entry.0 m ≡ some entry.1 =
            get-Elem entry.0 entry.1 m unique (Elem-perm entry (rt.visit-perm V 0 m) there) in
          subst (λ (w : V). get (name w) m ≡ some w) e
            (subst (λ k. get k m ≡ some entry.1) (sym (keyed entry.0 entry.1 found)) found),
      λ found.
          Elem-map entry_value (name v, v) (rt.visit V 0 m)
            (Elem-perm (name v, v) (Permᴰ.symm (rt.visit-perm V 0 m))
              (Elem-get (name v) v m found)),
    )

    -- What the map holds under a key is visited,
    pub found-values : (k : String) → get k m ≢ none → (v : V) × Elem v (values rt m) × (name v ≡ k)
    found-values k h = elim (Option-cases (get k m)) [
      | inl missing ↦ absurd (h missing)
      | inr (v, found) ↦
          let named : name v ≡ k = keyed k v found in
          (v, (values_iff v).1 (subst (λ j. get j m ≡ some v) (sym named) found), named)
    ]

    -- and no name is visited twice.
    pub values-Distinct : Distinct (map name (values rt m))
    values-Distinct = subst Distinct (sym (map-map (rt.visit V 0 m))) (
        Distinct-perm (map-perm entry_name (Permᴰ.symm (rt.visit-perm V 0 m))) (
          IsMap-Distinct m unique
            (λ entry there. keyed entry.0 entry.1 (get-Elem entry.0 entry.1 m unique there))))
