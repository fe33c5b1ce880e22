-- ===== src/Service/Laws.antt =====
-- Which objects service.go accepts.
use lbex.Prelude.{subst, sym, ◌≡◌, refl, ◌↔◌, ◌⊎◌, true, false, some, arith, eq_iff}
use lbex.Prelude.Text.{equal_fold}
use lbex.Prelude.Dict.{get}
use lbex.K8s.{Object, v1_service, V1Service, type_load_balancer, type_node_port, type_cluster_ip}
use lbex.Annotations.{lbex_class_key, lbex_class_key_value}
use lbex.Annotations.Laws.{is_valid_of_service_iff}
use lbex.Service.{none_string, is_valid_service_type, validate_service_object}

-- A service that the controller balances: the class annotation names it, the type is one of three,
-- and it is not headless.
pub record IsBalanced (s : V1Service) : Type 0 where
  pub class_named : get lbex_class_key s.annotations ≡ some lbex_class_key_value
  pub type_fits :
      (s.service_type ≡ type_node_port)
      ⊎ ((s.service_type ≡ type_cluster_ip) ⊎ (s.service_type ≡ type_load_balancer))
  pub not_headless : equal_fold s.cluster_ip none_string ≡ false

type_iff :
    (s : V1Service)
    → (is_valid_service_type (v1_service s) ≡ true) ↔ (
        (equal_fold s.cluster_ip none_string ≡ false)
        × ((s.service_type ≡ type_node_port)
            ⊎ ((s.service_type ≡ type_cluster_ip) ⊎ (s.service_type ≡ type_load_balancer))))
unfolding is_valid_service_type
type_iff s = ground (
  arith,
  eq_iff s.service_type type_node_port,
  eq_iff s.service_type type_cluster_ip,
  eq_iff s.service_type type_load_balancer,
)

pub validate_service_iff :
    (s : V1Service) → (validate_service_object (v1_service s) ≡ true) ↔ IsBalanced s
unfolding validate_service_object
validate_service_iff s =
    let (type_to, type_from) = type_iff s in
    let (class_to, class_from) = is_valid_of_service_iff s in
    (
      λ h.
          let typed = type_to (ground arith) in
          record {
            class_named = class_to (ground arith);
            type_fits = typed.1;
            not_headless = typed.0;
          },
      λ b. rw (type_from (b.not_headless, b.type_fits), class_from b.class_named),
    )

-- An object is accepted exactly when it is a v1 service that the controller balances.
pub validate_service_object_iff :
    (obj : Object)
    → (validate_service_object obj ≡ true) ↔ ((s : V1Service) × (obj ≡ v1_service s) × IsBalanced s)
unfolding validate_service_object
validate_service_object_iff (v1_service s) = (
  λ h. (s, refl, (validate_service_iff s).0 h),
  λ (t, e, b). subst (λ o. validate_service_object o ≡ true) (sym e) ((validate_service_iff t).1 b),
)
validate_service_object_iff _ = (λ h. cc, λ k. cc)
