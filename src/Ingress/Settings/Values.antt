-- ===== src/Ingress/Settings/Values.antt =====
-- What one annotation of an ingress gives, through the readers of annotations in nginx/convert.go.
use lbex.Prelude.{
  String, ℕ, Bool, true, false, not, ◌&&◌, ◌≡◌, refl, Option, none, some, List, arith,
  if◌then◌else◌,
}
use lbex.Prelude.Int.{ℤ, pos}
use lbex.Prelude.Text.{atoi, parse_bool}
use lbex.Prelude.Split.{split}
use lbex.Prelude.Dict.{Dict, get}
use lbex.Ingress.{Reading, get_map_key_as_bool, get_map_key_as_int, get_map_key_as_string_slice}
use lbex.Ingress.Settings.{replaced, or_old}

-- The annotation's value, where it is there and its text can be read, and the old one otherwise.
abbrev pub setting : {A : Type 0} → (String → Option A) → Dict String → String → A → A
setting parse m key old = elim (get key m) [
  | none ↦ old
  | some text ↦ elim (parse text) [ none ↦ old | some value ↦ value ]
]

-- The annotation is missing or its text can be read.
abbrev pub is_readable : {A : Type 0} → (String → Option A) → Dict String → String → Bool
is_readable parse m key = elim (get key m) [
  | none ↦ true
  | some text ↦ elim (parse text) [ none ↦ false | some value ↦ true ]
]

abbrev pub is_present : Dict String → String → Bool
is_present m key = elim (get key m) [ none ↦ false | some text ↦ true ]

abbrev pub parts_by : ℕ → String → Option (List String)
parts_by delimiter text = some (split delimiter text)

-- What a getter with the text's parser `parse` reads.
abbrev reading : {A : Type 0} → (String → Option A) → A → Dict String → String → Reading A
reading parse default m key = elim (get key m) [
  | none ↦ (default, false, false)
  | some text ↦ elim (parse text) [
    | none ↦ (default, true, true)
    | some value ↦ (value, true, false)
  ]
]

reading-bool :
    (m : Dict String) (key : String) → get_map_key_as_bool m key ≡ reading parse_bool false m key
unfolding get_map_key_as_bool
reading-bool m key = refl

reading-int :
    (m : Dict String) (key : String) → get_map_key_as_int m key ≡ reading atoi (pos 0) m key
unfolding get_map_key_as_int
reading-int m key = refl

reading-setting :
    {A : Type 0} (parse : String → Option A) (default : A) (m : Dict String) (key : String)
    (old : A)
    → replaced (reading parse default m key) old ≡ setting parse m key old
reading-setting parse default m key old = ground arith

pub bool-setting :
    (m : Dict String) (key : String) (old : Bool)
    → replaced (get_map_key_as_bool m key) old ≡ setting parse_bool m key old
bool-setting m key old = rw (reading-bool) (reading-setting parse_bool false m key old)

pub int-setting :
    (m : Dict String) (key : String) (old : ℤ)
    → replaced (get_map_key_as_int m key) old ≡ setting atoi m key old
int-setting m key old = rw (reading-int) (reading-setting atoi (pos 0) m key old)

pub slice-setting :
    (m : Dict String) (key : String) (delimiter : ℕ) (old : List String)
    → replaced (get_map_key_as_string_slice m key delimiter) old
      ≡ setting (parts_by delimiter) m key old
unfolding get_map_key_as_string_slice
slice-setting m key delimiter old = ground arith

pub text-setting :
    (m : Dict String) (key old : String) → or_old (get key m) old ≡ setting some m key old
text-setting m key old = ground arith

abbrev pub reads : {A : Type 0} → Reading A → Bool
reads r = not (r.1 && r.2)

reads-reading :
    {A : Type 0} (parse : String → Option A) (default : A) (m : Dict String) (key : String)
    → reads (reading parse default m key) ≡ is_readable parse m key
reads-reading parse default m key = ground arith

pub reads-bool :
    (m : Dict String) (key : String)
    → reads (get_map_key_as_bool m key) ≡ is_readable parse_bool m key
reads-bool m key = rw (reading-bool) (reads-reading parse_bool false m key)

pub reads-int :
    (m : Dict String) (key : String) → reads (get_map_key_as_int m key) ≡ is_readable atoi m key
reads-int m key = rw (reading-int) (reads-reading atoi (pos 0) m key)

counts-reading :
    {A : Type 0} (parse : String → Option A) (default : A) (m : Dict String) (key : String)
    (others : Bool)
    → ((reading parse default m key).1 && not (reading parse default m key).2 && others)
      ≡ (is_present m key && is_readable parse m key && others)
counts-reading parse default m key others = ground arith

pub counts-bool :
    (m : Dict String) (key : String) (others : Bool)
    → ((get_map_key_as_bool m key).1 && not (get_map_key_as_bool m key).2 && others)
      ≡ (is_present m key && is_readable parse_bool m key && others)
counts-bool m key others = rw (reading-bool) (counts-reading parse_bool false m key others)

-- Where the annotation counts, it is there and can be read.
value-reading :
    {A : Type 0} (parse : String → Option A) (default : A) (m : Dict String) (key : String)
    (others : Bool) (old : A)
    → (if is_present m key && is_readable parse m key && others
        then (reading parse default m key).0
        else old)
      ≡ (if is_present m key && is_readable parse m key && others
          then setting parse m key old
          else old)
value-reading parse default m key others old = ground arith

pub counts-value :
    (m : Dict String) (key : String) (others old : Bool)
    → (if is_present m key && is_readable parse_bool m key && others
        then (get_map_key_as_bool m key).0
        else old)
      ≡ (if is_present m key && is_readable parse_bool m key && others
          then setting parse_bool m key old
          else old)
counts-value m key others old = rw (reading-bool) (value-reading parse_bool false m key others old)
