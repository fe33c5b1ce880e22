-- ===== src/Annotations.antt =====
-- annotations/service_annotation.go and annotations/annotation_errors.go. A function that returns a
-- value and an error returns the pair of them; `none` is the error `nil`.
pub mod Laws
use lbex.Prelude.{String, Bool, true, false, not, Option, none, some, [], ◌∷◌, ◌==◌, if◌then◌else◌}
use lbex.Prelude.Int.{ℤ, pos}
use lbex.Prelude.Text.{atoi, parse_bool}
use lbex.Prelude.Dict.{Dict, get}
use lbex.K8s.{Object, v1_service}

abbrev pub lbex_class_key : String
lbex_class_key = "kubernetes.io/loadbalancer-class"

abbrev pub lbex_class_key_value : String
lbex_class_key_value = "loadbalancer-lbex"

abbrev pub lbex_port_annotation_base : String
lbex_port_annotation_base = "loadbalancer-port.lbex/"

abbrev pub lbex_ip_passthrough : String
lbex_ip_passthrough = "loadbalancer.lbex/passthrough"

abbrev pub lbex_algorithm_key : String
lbex_algorithm_key = "loadbalancer.lbex/algorithm"

abbrev pub lbex_method_key : String
lbex_method_key = "loadbalancer.lbex/method"

abbrev pub lbex_host_key : String
lbex_host_key = "loadbalancer.lbex/host"

abbrev pub lbex_resolver_key : String
lbex_resolver_key = "loadbalancer.lbex/resolver"

abbrev pub lbex_upstream_type : String
lbex_upstream_type = "loadbalancer.lbex/upstream-type"

abbrev pub lbex_node_address_type : String
lbex_node_address_type = "loadbalancer.lbex/node-address-type"

abbrev pub lbex_node_set : String
lbex_node_set = "loadbalancer.lbex/node-set"

abbrev pub lbex_pool_key : String
lbex_pool_key = "loadbalancer.lbex/service-pool"

-- `ErrMissingAnnotations`, `ErrInvalidAnnotationName`, `InvalidContent` with its name and value, and
-- the error for an object of another type.
pub data Error : Type 0 where
  missing_annotations invalid_annotation_name unexpected_type : Error
  invalid_content : String → String → Error

unfoldable pub is_missing_annotations : Error → Bool
is_missing_annotations missing_annotations = true
is_missing_annotations _ = false

unfoldable pub is_invalid_content : Error → Bool
is_invalid_content (invalid_content name val) = true
is_invalid_content _ = false

-- a value that is there, with the outcome of its parser
unfoldable pub parsed {ℓ} : {A : Type ℓ} → A → String → String → Option A → A × Option Error
parsed zero_value name val none = (zero_value, some (invalid_content name val))
parsed zero_value name val (some a) = (a, none)

unfoldable pub parse_bool_annotation : Dict String → String → Bool × Option Error
unfolding parsed parse_bool get
parse_bool_annotation as_map name = elim (get name as_map) [
  | some val ↦ parsed false name val (parse_bool val)
  | none ↦ (false, some missing_annotations)
]

unfoldable pub parse_string_annotation : Dict String → String → String × Option Error
unfolding get
parse_string_annotation as_map name = elim (get name as_map) [
  | some val ↦ (val, none)
  | none ↦ ("", some missing_annotations)
]

unfoldable pub parse_int_annotation : Dict String → String → ℤ × Option Error
unfolding parsed atoi get
parse_int_annotation as_map name = elim (get name as_map) [
  | some val ↦ parsed (pos 0) name val (atoi val)
  | none ↦ (pos 0, some missing_annotations)
]

-- len(service.GetAnnotations()) == 0
abbrev is_empty : Dict String → Bool
is_empty [] = true
is_empty (_ ∷ _) = false

unfoldable pub check_annotation : String → Object → Option Error
check_annotation name (v1_service s) =
    if name == ""
    then some invalid_annotation_name
    else if is_empty s.annotations
    then some missing_annotations
    else none
check_annotation name _ = if name == "" then some invalid_annotation_name else some unexpected_type

-- obj.(*v1.Service).GetAnnotations(), reached only with a service
abbrev annotations_of : Object → Dict String
annotations_of (v1_service s) = s.annotations
annotations_of _ = []

unfoldable pub get_bool_annotation : String → Object → Bool × Option Error
unfolding check_annotation parse_bool_annotation
get_bool_annotation name obj = elim (check_annotation name obj) [
  | some err ↦ (false, some err)
  | none ↦ parse_bool_annotation (annotations_of obj) name
]

unfoldable pub get_string_annotation : String → Object → String × Option Error
unfolding check_annotation parse_string_annotation
get_string_annotation name obj = elim (check_annotation name obj) [
  | some err ↦ ("", some err)
  | none ↦ parse_string_annotation (annotations_of obj) name
]

unfoldable pub get_int_annotation : String → Object → ℤ × Option Error
unfolding check_annotation parse_int_annotation
get_int_annotation name obj = elim (check_annotation name obj) [
  | some err ↦ (pos 0, some err)
  | none ↦ parse_int_annotation (annotations_of obj) name
]

-- `err != nil && !IsMissingAnnotations(err)` gives the zero value and false
unfoldable pub optional {ℓ} : {A : Type ℓ} → A → A × Option Error → A × Bool
unfolding is_missing_annotations
optional zero_value (value, none) = (value, true)
optional zero_value (value, some err) =
    if not (is_missing_annotations err) then (zero_value, false) else (value, true)

unfoldable pub get_optional_bool_annotation : String → Object → Bool × Bool
unfolding optional get_bool_annotation
get_optional_bool_annotation name obj = optional false (get_bool_annotation name obj)

unfoldable pub get_optional_string_annotation : String → Object → String × Bool
unfolding optional get_string_annotation
get_optional_string_annotation name obj = optional "" (get_string_annotation name obj)

unfoldable pub get_optional_int_annotation : String → Object → ℤ × Bool
unfolding optional get_int_annotation
get_optional_int_annotation name obj = optional (pos 0) (get_int_annotation name obj)

unfoldable pub is_valid : Object → Bool
unfolding get_optional_string_annotation
is_valid obj = (get_optional_string_annotation lbex_class_key obj).0 == lbex_class_key_value
