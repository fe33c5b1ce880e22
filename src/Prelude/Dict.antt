-- ===== src/Prelude/Dict.antt =====
-- Go's maps with text keys, as association lists. The order of the entries has no meaning in Go;
-- what a `range` over a map visits, and in which order, is `visit` of lbex.Runtime.
use lbex.Prelude.Tests.{if◌then◌else◌}
use Prim.Native.String.{String}
use mathlib.Core.Path.{◌≡◌}
use mathlib.Core.Logic.{inl, inr}
use lbex.Prelude.Lists.{Elem}
use lbex.Prelude.Tests.{String-cases}
use mathlib.Core.Option.{Option, none, some}
use mathlib.Core.List.{List, [], ◌∷◌}
use native.Mathlib.Omega.{arith}
use text.Mathlib.Text.{◌==◌}
use text.Mathlib.TextEquality.{eq_iff}

abbrev pub Dict {ℓ} : Type ℓ → Type ℓ
Dict V = List (String × V)

module _ {ℓ} {V : Type ℓ} where
  -- v, ok := m[k]
  unfoldable pub get : String → Dict V → Option V
  get k [] = none
  get k ((j, v) ∷ m) = if j == k then some v else get k m

  -- delete(m, k)
  unfoldable pub delete : String → Dict V → Dict V
  delete k [] = []
  delete k ((j, v) ∷ m) = let rest = delete k m in if j == k then rest else (j, v) ∷ rest

  -- m[k] = v
  unfoldable pub put : String → V → Dict V → Dict V
  unfolding delete
  put k v m = (k, v) ∷ delete k m

  pub get-delete :
      (k j : String) (m : Dict V) → get j (delete k m) ≡ (if k == j then none else get j m)
  unfolding get delete
  get-delete k j [] = ground arith
  get-delete k j ((i, v) ∷ m) = ground (arith, get-delete k j m, eq_iff i k, eq_iff i j, eq_iff k j)

  pub get-put :
      (k j : String) (v : V) (m : Dict V) → get j (put k v m) ≡ (if k == j then some v else get j m)
  unfolding get put
  get-put k j v m = ground (arith, get-delete k j m)

  -- No key stands twice, which Go's maps give by construction.
  abbrev pub IsMap : Dict V → Type ℓ
  IsMap [] = Unit
  IsMap ((k, v) ∷ m) = (get k m ≡ none) × IsMap m

  pub delete-IsMap : (k : String) (m : Dict V) → IsMap m → IsMap (delete k m)
  unfolding delete
  delete-IsMap k [] h = tt
  delete-IsMap k ((j, v) ∷ m) (fresh, h) = elim (String-cases j k) [
    | inl (e, same) ↦ rw same (delete-IsMap k m h)
    | inr (e, other) ↦ rw other (absent, delete-IsMap k m h)
  ]
    where
      absent : get j (delete k m) ≡ none
      absent = rw get-delete (ground (arith, fresh))

  pub put-IsMap : (k : String) (v : V) (m : Dict V) → IsMap m → IsMap (put k v m)
  unfolding put
  put-IsMap k v m h = (rw get-delete (ground (arith, eq_iff k k)), delete-IsMap k m h)

module _ {V : Type 0} where
  -- What a map holds under a key is an entry of it,
  pub Elem-get : (k : String) (v : V) (m : Dict V) → get k m ≡ some v → Elem (k, v) m
  unfolding get
  Elem-get k v ((j, w) ∷ m) h = elim (String-cases j k) [
    | inl (e, same) ↦ inl (ground (arith, eq_iff j k))
    | inr (e, other) ↦ inr (Elem-get k v m (ground (arith, eq_iff j k)))
  ]
  Elem-get k v [] h = cc

  -- and in a map each entry is found under its key.
  pub get-Elem : (k : String) (v : V) (m : Dict V) → IsMap m → Elem (k, v) m → get k m ≡ some v
  unfolding get
  get-Elem k v [] u h = absurd h
  get-Elem k v ((j, w) ∷ m) u (inl e) = ground (arith, eq_iff j k)
  get-Elem k v ((j, w) ∷ m) (fresh, u) (inr e) =
      let found = get-Elem k v m u e in ground (arith, eq_iff j k)

pub ruleset dict_laws = (get-delete, get-put)
