-- ===== src/Annotations/Laws.antt =====
-- What the optional getters of annotations/service_annotation.go return.
use lbex.Prelude.{
  sym, ap, eq_refl, String, ◌≡◌, refl, ◌≢◌, ◌↔◌, true, Option, none, some, arith, ◌==◌, eq_iff,
}
use lbex.Prelude.Int.{ℤ, pos, IsInt64}
use lbex.Prelude.Text.{atoi, atoi-IsInt64}
use lbex.Prelude.Dict.{Dict, get}
use lbex.K8s.{Object, v1_service, V1Service}
use lbex.Annotations.{
  lbex_class_key, lbex_class_key_value, Error, missing_annotations, invalid_content, parsed,
  check_annotation, parse_int_annotation, annotations_of, get_int_annotation,
  get_optional_string_annotation, is_valid,
}

-- The value under a key, or the empty text.
abbrev pub value_or_empty : Option String → String
value_or_empty none = ""
value_or_empty (some val) = val

-- For a name that is not empty, the optional getter of a service gives the value under the name,
-- the empty text where there is none, and reports true in both cases.
pub get_optional_string-service :
    (name : String) (s : V1Service)
    → name ≢ ""
    → get_optional_string_annotation name (v1_service s)
      ≡ (value_or_empty (get name s.annotations), true)
unfolding get_optional_string_annotation
get_optional_string-service name s h = ground (arith, eq_iff name "")

-- The result for an integer annotation, by the value under its name.
abbrev pub int_result : String → Option String → ℤ × Option Error
int_result name none = (pos 0, some missing_annotations)
int_result name (some val) = elim (atoi val) [
  | none ↦ (pos 0, some (invalid_content name val))
  | some i ↦ (i, none)
]

-- For a name that is not empty, the integer getter of a service gives the value under the name as
-- a number, and an error that tells apart a missing annotation and one that is no integer.
pub get_int-service :
    (name : String) (s : V1Service)
    → name ≢ ""
    → get_int_annotation name (v1_service s) ≡ int_result name (get name s.annotations)
unfolding get_int_annotation
get_int-service name s h = ground (arith, eq_iff name "")

parsed-IsInt64 :
    (name val : String) (o : Option ℤ)
    → ((i : ℤ) → o ≡ some i → IsInt64 i)
    → IsInt64 (parsed (pos 0) name val o).0
unfolding parsed
parsed-IsInt64 name val none h = ground arith
parsed-IsInt64 name val (some i) h = h i refl

-- Whatever the object and the name are, the number that the integer getter gives fits in 64 bits.
pub get_int_annotation-IsInt64 :
    (name : String) (obj : Object) → IsInt64 (get_int_annotation name obj).0
unfolding get_int_annotation parse_int_annotation
get_int_annotation-IsInt64 name obj = by_check (check_annotation name obj)
  where
    by_value :
        (m : Dict String) (o : Option String)
        → IsInt64
            (elim o as (λ x. ℤ × Option Error) [
              | some val ↦ parsed (pos 0) name val (atoi val)
              | none ↦ (pos 0, some missing_annotations)
            ]).0
    by_value m none = ground arith
    by_value m (some val) = parsed-IsInt64 name val (atoi val) (atoi-IsInt64 val)

    by_check :
        (o : Option Error)
        → IsInt64
            (elim o as (λ x. ℤ × Option Error) [
              | some err ↦ (pos 0, some err)
              | none ↦ parse_int_annotation (annotations_of obj) name
            ]).0
    by_check none = by_value (annotations_of obj) (get name (annotations_of obj))
    by_check (some err) = ground arith

is_valid-service :
    (s : V1Service)
    → is_valid (v1_service s)
      ≡ (value_or_empty (get lbex_class_key s.annotations) == lbex_class_key_value)
unfolding is_valid
is_valid-service s = ground arith

value_or_empty-inv :
    (o : Option String) (val : String) → val ≢ "" → value_or_empty o ≡ val → o ≡ some val
value_or_empty-inv none val h e = absurd (h (sym e))
value_or_empty-inv (some w) val h e = ap some e

pub is_valid_of_service_iff :
    (s : V1Service)
    → (is_valid (v1_service s) ≡ true)
      ↔ (get lbex_class_key s.annotations ≡ some lbex_class_key_value)
is_valid_of_service_iff s = (
  λ h.
      value_or_empty-inv _ _ (ground (arith, eq_iff lbex_class_key_value ""))
        ((eq_iff _ _).0 (rw is_valid-service at h)),
  λ found. rw (is_valid-service s, found) (eq_refl lbex_class_key_value),
)

-- An object is valid exactly when it is a service whose class annotation names this controller.
pub is_valid_iff :
    (obj : Object)
    → (is_valid obj ≡ true) ↔ (
        (s : V1Service) × (obj ≡ v1_service s)
        × (get lbex_class_key s.annotations ≡ some lbex_class_key_value))
unfolding is_valid
is_valid_iff (v1_service s) = (
  λ h. (s, refl, (is_valid_of_service_iff s).0 h),
  λ (t, e, found). rw e ((is_valid_of_service_iff t).1 found),
)
is_valid_iff _ = (λ h. cc, λ k. cc)
