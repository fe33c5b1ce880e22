-- ===== src/Runtime.antt =====
-- What the Go runtime and its library leave open: the order in which a `range` visits a map, and
-- the order in which sort.Sort puts items that compare as equal.
pub mod Laws
use mathlib.Core.List.{Permᴰ}
use lbex.Prelude.{String, ℕ, Bool, List, ◌+◌}
use lbex.Prelude.Dict.{Dict}

pub record Runtime : Type 1 where
  -- The entries in the order of the range, by the number of the range, since two ranges over one map
  -- may visit it in two orders.
  pub visit : (V : Type 0) → ℕ → Dict V → List (String × V)
  pub visit-perm : (V : Type 0) (n : ℕ) (m : Dict V) → Permᴰ (visit V n m) m
  pub sort : (A : Type 0) → (A → A → Bool) → List A → List A
  pub sort-perm : (A : Type 0) (less : A → A → Bool) (xs : List A) → Permᴰ (sort A less xs) xs

-- The runtime once a range has run: the next range is the first that it runs.
abbrev pub after_range : Runtime → Runtime
after_range rt = record rt {
  visit = λ V n m. rt.visit V (n + 1) m;
  visit-perm = λ V n m. rt.visit-perm V (n + 1) m;
}
