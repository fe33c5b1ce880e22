-- ===== src/Nginx/Options/Laws.antt =====
-- What the validation functions of nginx/service.go return.
use lbex.Prelude.{
  String, ◌≡◌, refl, ◌⊎◌, inl, inr, true, List, [], ◌∷◌, if◌then◌else◌, not, Elem, arith,
  String-cases, Bool-cases,
}
use lbex.Nginx.Options.{
  found_in, supported_algorithms, default_algorithm, validate_algorithm, supported_methods,
  default_method, validate_method, upstream_types, default_upstream_type, validate_upstream_type,
  node_address_types, default_node_address_type, validate_node_address_type, node_selection_sets,
  default_node_set, validate_node_set,
}

found_in-Elem : (a : String) (xs : List String) → found_in a xs ≡ true → Elem a xs
unfolding found_in
found_in-Elem a [] h = cc
found_in-Elem a (x ∷ xs) h = elim (String-cases a x) [
  | inl (e, same) ↦ inl e
  | inr (e, other) ↦ inr (found_in-Elem a xs (rw other at h))
]

Elem-found_in : (a : String) (xs : List String) → Elem a xs → found_in a xs ≡ true
unfolding found_in
Elem-found_in a [] h = absurd h
Elem-found_in a (x ∷ xs) h = elim (String-cases a x) [
  | inl (e, same) ↦ rw same
  | inr (e, other) ↦ elim h [ inl k ↦ absurd (e k) | inr k ↦ rw other (Elem-found_in a xs k) ]
]

-- `result` is `a` if the list holds it, and the default if not.
abbrev pub IsChoice : List String → String → String → String → Type 0
IsChoice xs default a result = (Elem a xs × (result ≡ a)) ⊎ (¬ (Elem a xs) × (result ≡ default))

choose :
    (xs : List String) (default a : String)
    → IsChoice xs default a (if not (found_in a xs) then default else a)
choose xs default a = elim (Bool-cases (found_in a xs)) [
  | inl found ↦ rw found (inl (found_in-Elem a xs found, refl))
  | inr missing ↦ rw missing (inr (λ h. ground (arith, Elem-found_in a xs h), refl))
]

-- Each validation gives back a supported value, and the documented default for any other text.
pub validate-IsChoice :
    (a : String)
    → IsChoice supported_algorithms default_algorithm a (validate_algorithm a)
      × IsChoice supported_methods default_method a (validate_method a)
      × IsChoice upstream_types default_upstream_type a (validate_upstream_type a)
      × IsChoice node_address_types default_node_address_type a (validate_node_address_type a)
      × IsChoice node_selection_sets default_node_set a (validate_node_set a)
unfolding validate_algorithm validate_method validate_upstream_type validate_node_address_type
    validate_node_set
validate-IsChoice a = (
  choose supported_algorithms default_algorithm a,
  choose supported_methods default_method a,
  choose upstream_types default_upstream_type a,
  choose node_address_types default_node_address_type a,
  choose node_selection_sets default_node_set a,
)
