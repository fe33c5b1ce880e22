-- ===== src/Selection.antt =====
-- controller.go, checkAffinity and baseCheck: which services an instance of lbex takes on.
pub mod Laws
use lbex.Prelude.{
  String, Bool, true, false, not, ◌||◌, Option, none, some, List, [], ◌∷◌, ◌==◌, if◌then◌else◌,
}
use Prim.Native.String.{◌++◌}
use lbex.Prelude.Int.{ℤ, pos, leb_ℤ}
use lbex.Config.{Config}
use lbex.Streams.{single_default_port_name}
use lbex.K8s.{Object, v1_service, V1ServicePort}
use lbex.Annotations.{lbex_port_annotation_base, get_int_annotation}
use lbex.Service.{validate_service_object}

-- checkAffinity
unfoldable pub check_affinity : Config → String → Bool
check_affinity cfg pool =
    if cfg.strict_affinity
    then pool == cfg.service_pool
    else if cfg.anti_affinity
    then not (pool == cfg.service_pool)
    else if pool == ""
    then true
    else pool == cfg.service_pool

-- the annotation that baseCheck reads for a port
unfoldable pub port_annotation : V1ServicePort → String
port_annotation p =
    if not (p.name == "")
    then lbex_port_annotation_base ++ p.name
    else lbex_port_annotation_base ++ single_default_port_name

-- the loop of baseCheck over the service's ports, with `retval`
unfoldable pub check_ports : Object → List V1ServicePort → Bool → Bool
unfolding port_annotation
check_ports obj [] retval = retval
check_ports obj (p ∷ ps) retval =
    let (port, err) = get_int_annotation (port_annotation p) obj in
    elim err [
      | some e ↦ check_ports obj ps retval
      | none ↦
          let rest = check_ports obj ps true in
          if leb_ℤ port (pos 0) || not (leb_ℤ port (pos 65535)) then false else rest
    ]

-- service, _ := obj.(*v1.Service); service.Spec.Ports, reached only with a service
abbrev ports_of : Object → List V1ServicePort
ports_of (v1_service s) = s.ports
ports_of _ = []

-- baseCheck
unfoldable pub base_check : Config → Object → Bool
unfolding check_ports
base_check cfg obj =
    if not (validate_service_object obj)
    then false
    else if cfg.require_port
    then check_ports obj (ports_of obj) false
    else false
