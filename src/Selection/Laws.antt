-- ===== src/Selection/Laws.antt =====
-- Which services checkAffinity and baseCheck of controller.go let through.
use Prim.Native.String.{◌++◌}
use text.Mathlib.TextLemmas.{cons-append, cons≢nil}
use lbex.Prelude.{
  ◌≤◌, String, ◌≡◌, refl, sym, ap, ◌∙◌, ◌≢◌, ◌↔◌, ◌⊎◌, inr, Bool, true, false, not, ◌||◌, Option,
  none, some, List, [], ◌∷◌, arith, eq_iff, All, any, if◌then◌else◌,
}
use lbex.Prelude.Int.{ℤ, pos, negsuc, leb_ℤ}
use lbex.Prelude.Text.{atoi}
use lbex.Prelude.Dict.{get}
use lbex.Config.{Config}
use lbex.K8s.{Object, v1_service, V1Service, V1ServicePort}
use lbex.Annotations.{Error, lbex_port_annotation_base}
use lbex.Annotations.Laws.{int_result, get_int-service}
use lbex.Service.Laws.{IsBalanced, validate_service_iff}
use lbex.Selection.{check_affinity, port_annotation, check_ports, base_check}

-- An instance with strict affinity takes exactly the services of its own pool, whether anti-affinity
-- is set or not; one with anti-affinity alone takes exactly those whose pool is another, where no pool
-- counts as the empty one; and one with neither takes those of its pool and those that name no pool.
pub affinity_modes :
    (cfg : Config) (pool : String) (anti : Bool)
    → ((check_affinity (record cfg { strict_affinity = true; anti_affinity = anti }) pool ≡ true)
        ↔ (pool ≡ cfg.service_pool))
      × ((check_affinity (record cfg { strict_affinity = false; anti_affinity = true }) pool ≡ true)
          ↔ (pool ≢ cfg.service_pool))
      × ((check_affinity (record cfg { strict_affinity = false; anti_affinity = false }) pool
            ≡ true)
          ↔ ((pool ≡ "") ⊎ (pool ≡ cfg.service_pool)))
unfolding check_affinity
affinity_modes cfg pool anti = (
  (λ h. (eq_iff pool cfg.service_pool).0 h, λ e. (eq_iff pool cfg.service_pool).1 e),
  ground (arith, eq_iff pool cfg.service_pool),
  ground (arith, eq_iff pool cfg.service_pool, eq_iff pool ""),
)

-- The number that a service gives for a port: the value of the port's annotation, if it is a number.
abbrev number_of : Option String → Option ℤ
number_of none = none
number_of (some val) = atoi val

abbrev pub annotated_port : V1Service → V1ServicePort → Option ℤ
annotated_port s p = number_of (get (port_annotation p) s.annotations)

-- A number from 1 to 65535, where there is one.
abbrev pub IsPort : Option ℤ → Type 0
IsPort none = Unit
IsPort (some (pos n)) = (1 ≤ n) × (n ≤ 65535)
IsPort (some (negsuc n)) = ⊥

abbrev pub is_given : Option ℤ → Bool
is_given none = false
is_given (some i) = true

abbrev port_result : Option ℤ → Bool → Bool → Bool
port_result none rest_same rest_true = rest_same
port_result (some i) rest_same rest_true =
    if leb_ℤ i (pos 0) || not (leb_ℤ i (pos 65535)) then false else rest_true

base-append-ne : (x : String) → lbex_port_annotation_base ++ x ≢ ""
base-append-ne x e = cons≢nil (sym (cons-append "l" "oadbalancer-port.lbex/" x) ∙ e)

port_annotation-ne : (p : V1ServicePort) → port_annotation p ≢ ""
unfolding port_annotation
port_annotation-ne p e = ground (arith, base-append-ne p.name, base-append-ne "unnamed")

-- one round of the loop of baseCheck, on the annotation's value and error
abbrev port_step : ℤ × Option Error → Bool → Bool → Bool
port_step r rest_same rest_true = elim r.1 [
  | some e ↦ rest_same
  | none ↦ if leb_ℤ r.0 (pos 0) || not (leb_ℤ r.0 (pos 65535)) then false else rest_true
]

port_step-result :
    (name : String) (o : Option String) (a b : Bool)
    → port_step (int_result name o) a b ≡ port_result (number_of o) a b
port_step-result name none a b = refl
port_step-result name (some val) a b = ground arith

check_ports-cons :
    (s : V1Service) (p : V1ServicePort) (ps : List V1ServicePort) (retval : Bool)
    → check_ports (v1_service s) (p ∷ ps) retval
      ≡ port_result
          (annotated_port s p)
          (check_ports (v1_service s) ps retval)
          (check_ports (v1_service s) ps true)
unfolding check_ports
check_ports-cons s p ps retval =
    ap
      (λ r. port_step r (check_ports (v1_service s) ps retval) (check_ports (v1_service s) ps true))
      (get_int-service (port_annotation p) s (port_annotation-ne p))
    ∙ port_step-result (port_annotation p) (get (port_annotation p) s.annotations) _ _

check_ports_iff :
    (s : V1Service) (ps : List V1ServicePort) (retval : Bool)
    → (check_ports (v1_service s) ps retval ≡ true) ↔ (
        All (λ p. IsPort (annotated_port s p)) ps
        × ((retval ≡ true) ⊎ (any (λ p. is_given (annotated_port s p)) ps ≡ true)))
check_ports_iff s [] retval = unfold check_ports in ground arith
check_ports_iff s (p ∷ ps) retval =
    rw check_ports-cons (ground (arith, check_ports_iff s ps retval, check_ports_iff s ps true))

-- A service that baseCheck lets through: the controller balances it, ports are required, each port
-- that has a number has one from 1 to 65535, and at least one port has a number.
pub record IsSelected (cfg : Config) (s : V1Service) : Type 0 where
  pub balanced : IsBalanced s
  pub required : cfg.require_port ≡ true
  pub in_range : All (λ p. IsPort (annotated_port s p)) s.ports
  pub given : any (λ p. is_given (annotated_port s p)) s.ports ≡ true

pub base_check-service :
    (cfg : Config) (s : V1Service) → (base_check cfg (v1_service s) ≡ true) ↔ IsSelected cfg s
unfolding base_check
base_check-service cfg s =
    let (to, from) = check_ports_iff s s.ports false in
    let (to', from') = validate_service_iff s in
    (
      λ h.
          let passed = to (ground arith) in
          record {
            balanced = to' (ground arith);
            required = ground arith;
            in_range = passed.0;
            given = ground arith;
          },
      λ b. rw (from' b.balanced, b.required, from (b.in_range, inr b.given)),
    )

-- With --require-port=false no object passes baseCheck, whatever its annotations are.
pub base_check_off :
    (cfg : Config) (obj : Object) → cfg.require_port ≡ false → base_check cfg obj ≡ false
unfolding base_check
base_check_off cfg obj h = ground arith
