-- ===== src/Prelude/Split.antt =====
-- strings.Split and strings.SplitN for a separator of one character, and texts in which a character
-- does not stand.
use lbex.Prelude.Tests.{nat_beq, if◌then◌else◌, Bool-cases}
use Prim.Native.Nat.{ℕ}
use Prim.Native.Char.{Char, code}
use Prim.Native.String.{String, [], ◌∷◌, ◌++◌}
use mathlib.Core.Path.{◌≡◌, refl, ap, ◌∙◌}
use mathlib.Core.Logic.{inl, inr}
use mathlib.Core.Bool.{Bool, true, false, ◌||◌}
use mathlib.Core.List.{List}
use mathlib.Core.List.{[] as nil, ◌∷◌ as ◌◂◌}
use native.Mathlib.Omega.{arith}
use text.Mathlib.TextLemmas.{nil-append, cons-append}

-- the character stands in the text
unfoldable pub contains : ℕ → String → Bool
contains sep [] = false
contains sep (c ∷ s) = nat_beq (code c) sep || contains sep s

-- the parts of the text `before ++ s`, where `before` holds no separator
abbrev first_part : Char → List String → List String
first_part c nil = nil
first_part c (part ◂ parts) = (c ∷ part) ◂ parts

-- strings.Split(s, sep); it gives at least one part
unfoldable pub split : ℕ → String → List String
split sep [] = "" ◂ nil
split sep (c ∷ s) =
    let rest = split sep s in if nat_beq (code c) sep then "" ◂ rest else first_part c rest

-- strings.SplitN(s, sep, 2)
unfoldable pub split_2 : ℕ → String → List String
split_2 sep [] = "" ◂ nil
split_2 sep (c ∷ s) =
    let rest = split_2 sep s in if nat_beq (code c) sep then "" ◂ s ◂ nil else first_part c rest

split_tests :
    (split b',' "a,b,,c" ≡ "a" ◂ "b" ◂ "" ◂ "c" ◂ nil)
    × (split b',' "" ≡ "" ◂ nil)
    × (split_2 b' ' "a b c" ≡ "a" ◂ "b c" ◂ nil)
    × (split_2 b' ' "abc" ≡ "abc" ◂ nil)
unfolding split split_2
split_tests = (refl, refl, refl, refl)

-- A text without the separator is one part,
pub split-one : (sep : ℕ) (s : String) → contains sep s ≡ false → split sep s ≡ s ◂ nil
unfolding split contains
split-one sep [] h = refl
split-one sep (c ∷ s) h = rw (split-one sep s (ground (arith, h))) (ground (arith, h))

-- and in front of a separator it is the first part.
pub split-first :
    (sep : ℕ) (s : String) (c : Char) (t : String)
    → contains sep s ≡ false
    → nat_beq (code c) sep ≡ true
    → split sep (s ++ c ∷ t) ≡ s ◂ split sep t
unfolding split contains
split-first sep [] c t h k = rw (nil-append, k) refl
split-first sep (d ∷ s) c t h k =
    rw (cons-append, split-first sep s c t (ground (arith, h)) k) (ground (arith, h))

-- A text with the separator has at least two parts.
pub split-two :
    (sep : ℕ) (s : String)
    → contains sep s ≡ true
    → (first : String) × (second : String) × (more : List String) × (split sep s
        ≡ first ◂ second ◂ more)
unfolding split contains
split-two sep [] h = cc
split-two sep (c ∷ s) h = elim (Bool-cases (nat_beq (code c) sep)) [
  | inl here ↦ let (part, parts, e) = split-some sep s in ("", part, parts, rw (here, e) refl)
  | inr later ↦
      let (first, second, more, e) = split-two sep s (ground (arith, h, later)) in
      (c ∷ first, second, more, rw (later, e) refl)
]
  where
    split-some :
        (sep : ℕ) (s : String)
        → (part : String) × (parts : List String) × (split sep s ≡ part ◂ parts)
    split-some sep [] = ("", nil, refl)
    split-some sep (c ∷ s) =
        let (part, parts, e) = split-some sep s in
        elim (Bool-cases (nat_beq (code c) sep)) [
          | inl here ↦ ("", part ◂ parts, rw (here, e) refl)
          | inr later ↦ (c ∷ part, parts, rw (later, e) refl)
        ]

pub contains-append :
    (sep : ℕ) (s t : String) → contains sep (s ++ t) ≡ (contains sep s || contains sep t)
unfolding contains
contains-append sep [] t = rw nil-append refl
contains-append sep (c ∷ s) t = rw (cons-append, contains, contains-append sep s t) (ground arith)

-- The part in front of the first separator is split off by SplitN.
pub split_2-first :
    (sep : ℕ) (s : String) (c : Char) (t : String)
    → contains sep s ≡ false
    → nat_beq (code c) sep ≡ true
    → split_2 sep (s ++ c ∷ t) ≡ s ◂ t ◂ nil
unfolding split_2 contains
split_2-first sep [] c t h k = rw (nil-append, k) refl
split_2-first sep (d ∷ s) c t h k =
    rw (cons-append, split_2-first sep s c t (ground (arith, h)) k) (ground (arith, h))

-- strings.Join for a separator of one character
abbrev pub join : Char → List String → String
join c nil = ""
join c (s ◂ nil) = s
join c (s ◂ t ◂ ss) = s ++ c ∷ join c (t ◂ ss)

abbrev pub AllWithout : ℕ → List String → Type 0
AllWithout sep nil = Unit
AllWithout sep (s ◂ ss) = (contains sep s ≡ false) × AllWithout sep ss

-- Split takes apart what Join puts together, if no part has the separator and there is a part.
pub split-join :
    (sep : ℕ) (c : Char) (s : String) (ss : List String)
    → nat_beq (code c) sep ≡ true
    → AllWithout sep (s ◂ ss)
    → split sep (join c (s ◂ ss)) ≡ s ◂ ss
split-join sep c s nil k (h, _) = split-one sep s h
split-join sep c s (t ◂ ss) k (h, hs) =
    split-first sep s c (join c (t ◂ ss)) h k ∙ ap (λ parts. s ◂ parts) (split-join sep c t ss k hs)
