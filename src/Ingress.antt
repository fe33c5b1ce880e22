-- ===== src/Ingress.antt =====
-- The Ingress objects that nginx/configurator.go reads (k8s.io/client-go, extensions/v1beta1, with
-- the fields that it reads), nginx/ingress.go, and the readers of annotations in nginx/convert.go.
pub mod Settings
pub mod Rewrites
pub mod Upstream
pub mod Generate
pub mod Publish
use lbex.Prelude.{String, ℕ, Bool, true, false, Option, none, some, List, []}
use lbex.Prelude.Int.{ℤ, pos}
use lbex.Prelude.Text.{atoi, parse_bool}
use lbex.Prelude.Split.{split}
use lbex.Prelude.Dict.{Dict, get}
use lbex.K8s.{IntOrString}

pub record IngressBackend : Type 0 where
  pub service_name : String
  pub service_port : IntOrString

pub record HttpIngressPath : Type 0 where
  pub path : String
  pub backend : IngressBackend

-- `http` is the paths of rule.IngressRuleValue.HTTP, a pointer.
pub record IngressRule : Type 0 where
  pub host : String
  pub http : Option (List HttpIngressPath)

pub record IngressTls : Type 0 where
  pub hosts : List String
  pub secret_name : String

pub record Ingress : Type 0 where
  pub namespace : String
  pub name : String
  pub annotations : Dict String
  pub backend : Option IngressBackend
  pub tls : List IngressTls
  pub rules : List IngressRule

pub record Secret : Type 0 where
  pub secret_data : Dict String

-- `secrets` is a map of pointers.
pub record IngressEx : Type 0 where
  pub ingress : Ingress
  pub secrets : Dict (Option Secret)
  pub endpoints : Dict (List String)

-- What GetMapKeyAsX returns: a value, whether the key exists, and whether there is an error.
abbrev pub Reading : Type 0 → Type 0
Reading A = A × Bool × Bool

unfoldable pub get_map_key_as_bool : Dict String → String → Reading Bool
unfolding get parse_bool
get_map_key_as_bool m key = elim (get key m) [
  | none ↦ (false, false, false)
  | some str ↦ elim (parse_bool str) [ none ↦ (false, true, true) | some b ↦ (b, true, false) ]
]

unfoldable pub get_map_key_as_int : Dict String → String → Reading ℤ
unfolding get atoi
get_map_key_as_int m key = elim (get key m) [
  | none ↦ (pos 0, false, false)
  | some str ↦ elim (atoi str) [ none ↦ (pos 0, true, true) | some i ↦ (i, true, false) ]
]

unfoldable pub get_map_key_as_string_slice : Dict String → String → ℕ → Reading (List String)
unfolding get split
get_map_key_as_string_slice m key delimiter = elim (get key m) [
  | none ↦ ([], false, false)
  | some str ↦ (split delimiter str, true, false)
]
