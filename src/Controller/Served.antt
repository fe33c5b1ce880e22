-- ===== src/Controller/Served.antt =====
-- Where syncServices of controller.go asks the Configurator to serve an endpoint of a service, by the
-- annotations of the service.
use lbex.Prelude.{
  String, ◌≡◌, refl, sym, subst, ◌∙◌, ap, ◌≢◌, inl, inr, true, some, List, Elem, ◌==◌, ◌||◌, eq_iff,
  arith, String-cases, if◌then◌else◌,
}
use Prim.Native.String.{◌++◌ as ◌⧺◌}
use lbex.Prelude.Text.{itoa}
use lbex.Prelude.Dict.{Dict, get}
use lbex.K8s.{V1Service}
use lbex.Annotations.{lbex_upstream_type, lbex_node_set, lbex_node_address_type}
use lbex.Annotations.Laws.{value_or_empty, get_optional_string-service}
use lbex.Service.{Endpoint, Service}
use lbex.Nginx.{Node, ServiceSpec, StreamUpstream, StreamNginxConfig}
use lbex.Nginx.Options.{validate_upstream_type, validate_node_set, validate_node_address_type}
use lbex.Nginx.Options.Laws.{validate-IsChoice}
use lbex.Streams.{node_set_of, address_type_of}
use lbex.Generate.Upstreams.{upstream_name}
use lbex.Generate.Servers.{plain, Reaches, at_pod, at_cluster, at_host, at_all, equal, if-true}
use lbex.Controller.{target_of, service_spec}

-- The value of an annotation, or the empty text.
abbrev pub annotation : V1Service → String → String
annotation s name = value_or_empty (get name s.annotations)

-- The address of a node that a service asks for.
abbrev pub node_ip : V1Service → Node → String
node_ip s node =
    if annotation s "loadbalancer.lbex/node-address-type" == "external"
    then node.external_ip
    else node.internal_ip

-- The addresses for an endpoint: that of its pod or of the cluster, where the service asks for it;
-- otherwise, that of the node it is on if the cache has it, or of all nodes of the cache where the
-- service asks for all.
pub data Serves (s : V1Service) (nodes : Dict Node) (e : Endpoint) : String → Type 0 where
  pod_address :
      annotation s "loadbalancer.lbex/upstream-type" ≡ "pod"
      → Serves s nodes e (e.pod_ip ⧺ ":" ⧺ itoa e.pod_port)
  cluster_address :
      annotation s "loadbalancer.lbex/upstream-type" ≡ "cluster-ip"
      → Serves s nodes e (s.cluster_ip ⧺ ":" ⧺ itoa e.service_port)
  host_address :
      (node : Node)
      → annotation s "loadbalancer.lbex/upstream-type" ≢ "pod"
      → annotation s "loadbalancer.lbex/upstream-type" ≢ "cluster-ip"
      → annotation s "loadbalancer.lbex/node-set" ≢ "all"
      → get e.node_name nodes ≡ some node
      → Serves s nodes e (node_ip s node ⧺ ":" ⧺ itoa e.node_port)
  all_address :
      (name : String) (node : Node)
      → annotation s "loadbalancer.lbex/upstream-type" ≢ "pod"
      → annotation s "loadbalancer.lbex/upstream-type" ≢ "cluster-ip"
      → annotation s "loadbalancer.lbex/node-set" ≡ "all"
      → Elem (name, node) nodes
      → Serves s nodes e (node_ip s node ⧺ ":" ⧺ itoa e.node_port)

-- The name of an endpoint's upstream.
abbrev pub name_for : V1Service → Endpoint → String
name_for s e =
    s.namespace ⧺ "-" ⧺ s.name ⧺ "-" ⧺ (if e.port_name == "" then "unnamed" else e.port_name)

-- What a configuration holds for the endpoints `es` of a service: for each of them there is an upstream
-- of its name, with a server at each address for it.
abbrev pub IsServed : Dict Node → V1Service → List Endpoint → StreamNginxConfig → Type 0
IsServed nodes s es config =
    (e : Endpoint)
    → Elem e es
    → (u : StreamUpstream) × Elem u config.upstreams
      × (u.name ≡ name_for s e)
      × ((address : String) → Serves s nodes e address → Elem (plain address) u.upstream_servers)

module _ (key : String) (s : V1Service) (topo : List Service) where
  abbrev spec : ServiceSpec
  spec = service_spec key s topo

  upstream_type_lem : spec.upstream_type ≡ validate_upstream_type (annotation s lbex_upstream_type)
  unfolding service_spec
  upstream_type_lem =
      ap (λ r. validate_upstream_type r.0)
        (get_optional_string-service lbex_upstream_type s
          (ground (arith, eq_iff lbex_upstream_type "")))

  node_set_lem : node_set_of s ≡ validate_node_set (annotation s lbex_node_set)
  node_set_lem =
      ap (λ r. validate_node_set r.0)
        (get_optional_string-service lbex_node_set s (ground (arith, eq_iff lbex_node_set "")))

  -- Every other text chooses the upstream type `node`,
  type-node : (a : String) → a ≢ "pod" → a ≢ "cluster-ip" → validate_upstream_type a ≡ "node"
  type-node a p c = elim (validate-IsChoice a).2 [
    | inr (_, e) ↦ e
    | inl (inl same, e) ↦ e ∙ same
    | inl (inr (inl same), e) ↦ absurd (p same)
    | inl (inr (inr (inl same)), e) ↦ absurd (c same)
    | inl (inr (inr (inr nowhere)), e) ↦ absurd nowhere
  ]

  set-host : (a : String) → a ≢ "all" → validate_node_set a ≡ "host"
  set-host a h = elim (validate-IsChoice a).4 [
    | inr (_, e) ↦ e
    | inl (inl same, e) ↦ e ∙ same
    | inl (inr (inl same), e) ↦ absurd (h same)
    | inl (inr (inr nowhere), e) ↦ absurd nowhere
  ]

  type-internal : (a : String) → a ≢ "external" → validate_node_address_type a ≡ "internal"
  type-internal a h = elim (validate-IsChoice a).3 [
    | inr (_, e) ↦ e
    | inl (inl same, e) ↦ e ∙ same
    | inl (inr (inl same), e) ↦ absurd (h same)
    | inl (inr (inr nowhere), e) ↦ absurd nowhere
  ]

  address-external :
      (ip external_ip : String)
      → (if validate_node_address_type "external" == "internal" then ip else external_ip)
        ≡ external_ip
  unfolding validate_node_address_type
  address-external ip external_ip = refl

  address-choice :
      (a ip external_ip : String)
      → (if validate_node_address_type a == "internal" then ip else external_ip)
        ≡ (if a == "external" then external_ip else ip)
  address-choice a ip external_ip = elim (String-cases a "external") [
    | inl (e, same) ↦
        ap (λ b. if validate_node_address_type b == "internal" then ip else external_ip) e
        ∙ (address-external ip external_ip ∙ sym (if-true (a == "external") external_ip ip same))
    | inr (ne, other) ↦
        if-true (validate_node_address_type a == "internal") ip external_ip
          (equal (type-internal a ne))
        ∙ ap (λ b. if b then external_ip else ip) (sym other)
  ]

  address-lem :
      (node : Node)
      → (if address_type_of s == "internal" then node.internal_ip else node.external_ip)
        ≡ node_ip s node
  address-lem node =
      ap
        (λ r.
          if validate_node_address_type r.0 == "internal"
          then node.internal_ip
          else node.external_ip)
        (get_optional_string-service lbex_node_address_type s
          (ground (arith, eq_iff lbex_node_address_type "")))
      ∙ address-choice _ node.internal_ip node.external_ip

  spec-type-node :
      annotation s lbex_upstream_type ≢ "pod"
      → annotation s lbex_upstream_type ≢ "cluster-ip"
      → spec.upstream_type ≡ "node"
  spec-type-node p c = upstream_type_lem ∙ type-node _ p c

  pod-type : annotation s lbex_upstream_type ≡ "pod" → spec.upstream_type ≡ "pod"
  unfolding validate_upstream_type
  pod-type e = upstream_type_lem ∙ ap validate_upstream_type e

  cluster-type : annotation s lbex_upstream_type ≡ "cluster-ip" → spec.upstream_type ≡ "cluster-ip"
  unfolding validate_upstream_type
  cluster-type e = upstream_type_lem ∙ ap validate_upstream_type e

  all-set : annotation s lbex_node_set ≡ "all" → node_set_of s ≡ "all"
  unfolding validate_node_set
  all-set e = node_set_lem ∙ ap validate_node_set e

  -- The Configurator is asked for these addresses.
  pub Serves-Reaches :
      (nodes : Dict Node) (e : Endpoint) (address : String)
      → Serves s nodes e address
      → Reaches (service_spec key s topo) nodes (target_of e) address
  unfolding service_spec
  Serves-Reaches nodes e _ (pod_address a) = at_pod (pod-type a)
  Serves-Reaches nodes e _ (cluster_address a) = at_cluster (cluster-type a)
  Serves-Reaches nodes e _ (host_address node p c h cached) =
      subst (Reaches (service_spec key s topo) nodes (target_of e))
        (ap (λ ip. ip ⧺ ":" ⧺ itoa e.node_port) (address-lem node))
        (at_host node (spec-type-node p c) (node_set_lem ∙ set-host _ h) cached)
  Serves-Reaches nodes e _ (all_address name node p c h there) =
      subst (Reaches (service_spec key s topo) nodes (target_of e))
        (ap (λ ip. ip ⧺ ":" ⧺ itoa e.node_port) (address-lem node))
        (at_all name node (spec-type-node p c) (all-set h) there)

  pub upstream_name-spec :
      (e : Endpoint) → upstream_name (service_spec key s topo) (target_of e) ≡ name_for s e
  unfolding service_spec
  upstream_name-spec e = if-true _ _ _ known
    where
      known :
          ((service_spec key s topo).upstream_type == "node"
            || (service_spec key s topo).upstream_type == "pod"
            || (service_spec key s topo).upstream_type == "cluster-ip")
          ≡ true
      known = elim (String-cases (annotation s lbex_upstream_type) "pod") [
        | inl (e, _) ↦ ap (λ t. t == "node" || t == "pod" || t == "cluster-ip") (pod-type e)
        | inr (p, _) ↦ elim (String-cases (annotation s lbex_upstream_type) "cluster-ip") [
          | inl (e, _) ↦ ap (λ t. t == "node" || t == "pod" || t == "cluster-ip") (cluster-type e)
          | inr (c, _) ↦
              ap (λ t. t == "node" || t == "pod" || t == "cluster-ip") (spec-type-node p c)
        ]
      ]
