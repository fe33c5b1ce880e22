-- ===== src/Generate/Servers.antt =====
-- Which servers the functions create*StreamUpstream of nginx/configurator.go give the upstream of a
-- target, by the type of upstream that the service asks for.
use mathlib.Core.List.Permᴰ
use lbex.Prelude.{
  String, Bool, true, false, ◌≡◌, refl, sym, ◌∙◌, ap, subst, ◌≢◌, inl, inr, Option, none, some,
  List, [], ◌∷◌, map, ◌==◌, Elem, Elem-map, map-Elem, Elem-perm, String-cases, eq_iff, arith,
  if◌then◌else◌,
}
use Prim.Native.String.{◌++◌ as ◌⧺◌}
use lbex.Prelude.Text.{itoa}
use lbex.Prelude.Dict.{Dict, get}
use lbex.Runtime.{Runtime}
use lbex.Nginx.{Node, Target, ServiceSpec, StreamUpstreamServer, StreamUpstream}
use lbex.Nginx.Options.{host_node, pod, cluster_ip, host, all_nodes}
use lbex.Configurator.{State}
use lbex.Streams.{
  server_at, format_address, set_upstream_nodes, host_upstream, all_upstream, node_set_of,
  address_type_of, upstream_with, create_cluster_stream_upstream, create_pod_stream_upstream,
  create_nodes_stream_upstream, create_stream_upstream,
}
use lbex.Generate.Upstreams.{upstream_of}

-- A server with an address and no parameter.
abbrev pub plain : String → StreamUpstreamServer
plain address = record {
  address = address;
  weight = "";
  max_conns = "";
  max_fails = "";
  fail_timeout = "";
  backup = false;
  down = false;
}

-- The address of a node for a target: the one that the service asks for, with the node port.
abbrev pub node_address : ServiceSpec → Target → Node → String
node_address svc t node =
    (if address_type_of svc.service == "internal" then node.internal_ip else node.external_ip)
    ⧺ ":"
    ⧺ itoa t.node_port

-- The addresses at which NGINX reaches a target: that of its pod, that of the cluster, that of the
-- node it is on if the cache has it, or those of all nodes of the cache.
pub data Reaches (svc : ServiceSpec) (nodes : Dict Node) (t : Target) : String → Type 0 where
  at_pod : svc.upstream_type ≡ "pod" → Reaches svc nodes t (t.pod_ip ⧺ ":" ⧺ itoa t.pod_port)
  at_cluster :
      svc.upstream_type ≡ "cluster-ip"
      → Reaches svc nodes t (svc.cluster_ip ⧺ ":" ⧺ itoa t.service_port)
  at_host :
      (node : Node)
      → svc.upstream_type ≡ "node"
      → node_set_of svc.service ≡ "host"
      → get t.node_name nodes ≡ some node
      → Reaches svc nodes t (node_address svc t node)
  at_all :
      (name : String) (node : Node)
      → svc.upstream_type ≡ "node"
      → node_set_of svc.service ≡ "all"
      → Elem (name, node) nodes
      → Reaches svc nodes t (node_address svc t node)

pub equal : {a b : String} → a ≡ b → (a == b) ≡ true
equal {a} {b} h = (eq_iff a b).1 h

pub unequal : {a b : String} → a ≢ b → (a == b) ≡ false
unequal {a} {b} h = ground (arith, eq_iff a b)

pub if-true : {A : Type 0} (b : Bool) (x y : A) → b ≡ true → (if b then x else y) ≡ x
if-true true x y h = refl
if-true false x y h = cc

module _ (rt : Runtime) (svc : ServiceSpec) (st : State) (t : Target) where
  abbrev servers : List StreamUpstreamServer
  servers = (upstream_of rt svc st t).upstream_servers

  abbrev by_node : Option Node → List StreamUpstreamServer
  by_node none = []
  by_node (some node) = plain (node_address svc t node) ∷ []

  abbrev at_entry : String × Node → StreamUpstreamServer
  at_entry entry = plain (node_address svc t entry.1)

  format_address_lem :
      (node : Node) → format_address (address_type_of svc.service) node t ≡ node_address svc t node
  unfolding format_address
  format_address_lem node = ground arith

  servers-pod : svc.upstream_type ≡ pod → servers ≡ plain (t.pod_ip ⧺ ":" ⧺ itoa t.pod_port) ∷ []
  unfolding create_stream_upstream
  servers-pod e = rw (create_stream_upstream, e) refl

  servers-cluster :
      svc.upstream_type ≡ cluster_ip
      → servers ≡ plain (svc.cluster_ip ⧺ ":" ⧺ itoa t.service_port) ∷ []
  unfolding create_stream_upstream
  servers-cluster e = rw (create_stream_upstream, e) refl

  -- the choice of createNodesStreamUpstream between the sets of nodes
  abbrev by_set : Bool → Bool → List StreamUpstreamServer
  by_set is_host is_all =
      (if is_host
        then host_upstream svc t (address_type_of svc.service) st
        else if is_all
        then all_upstream rt svc t (address_type_of svc.service) st
        else ([], st)).0

  servers-node :
      svc.upstream_type ≡ host_node
      → servers ≡ by_set (node_set_of svc.service == host) (node_set_of svc.service == all_nodes)
  unfolding create_stream_upstream create_nodes_stream_upstream
  servers-node e =
      ap (λ (r : StreamUpstream × State). r.0.upstream_servers)
        (if-true (svc.upstream_type == host_node) _ _ (equal e))

  servers-host :
      svc.upstream_type ≡ host_node
      → node_set_of svc.service ≡ host
      → servers ≡ by_node (get t.node_name st.nodes)
  unfolding host_upstream
  servers-host e set =
      servers-node e
      ∙ (ap (λ b. by_set b (node_set_of svc.service == all_nodes)) (equal set)
          ∙ by_cached (get t.node_name st.nodes))
    where
      by_cached :
          (o : Option Node)
          → (elim o as (λ x. List StreamUpstreamServer × State) [
            | none ↦ ([], st)
            | some node ↦ (
              server_at (format_address (address_type_of svc.service) node t) ∷ [],
              set_upstream_nodes svc (node ∷ []) st,
            )
          ]).0
            ≡ by_node o
      by_cached none = refl
      by_cached (some node) = ap (λ a. plain a ∷ []) (format_address_lem node)

  servers-all :
      svc.upstream_type ≡ host_node
      → node_set_of svc.service ≡ all_nodes
      → servers ≡ map at_entry (rt.visit Node 0 st.nodes)
  unfolding all_upstream
  servers-all e set =
      servers-node e
      ∙ (ap (λ set. by_set (set == host) (set == all_nodes)) set
          ∙ at_entries (rt.visit Node 0 st.nodes))
    where
      at_entries :
          (entries : List (String × Node))
          → map
              (λ node. server_at (format_address (address_type_of svc.service) node t))
              (map (λ (entry : String × Node). entry.1) entries)
            ≡ map at_entry entries
      at_entries [] = refl
      at_entries (entry ∷ entries) =
          ap
            (λ a.
              plain a
              ∷ map (λ node. server_at (format_address (address_type_of svc.service) node t))
                  (map (λ (e : String × Node). e.1) entries))
            (format_address_lem entry.1)
          ∙ ap (λ rest. at_entry entry ∷ rest) (at_entries entries)

  servers-unset :
      svc.upstream_type ≡ host_node
      → node_set_of svc.service ≢ host
      → node_set_of svc.service ≢ all_nodes
      → servers ≡ []
  servers-unset e not_host not_all =
      servers-node e
      ∙ (ap (λ b. by_set b (node_set_of svc.service == all_nodes)) (unequal not_host)
          ∙ ap (by_set false) (unequal not_all))

  -- the switch on the type
  abbrev by_type : Bool → Bool → Bool → StreamUpstream
  by_type is_node is_pod is_cluster =
      (if is_node
        then create_nodes_stream_upstream rt svc t st
        else if is_pod
        then create_pod_stream_upstream svc t st
        else if is_cluster
        then create_cluster_stream_upstream svc t st
        else (upstream_with "" [], st)).0

  servers-untyped :
      svc.upstream_type ≢ host_node
      → svc.upstream_type ≢ pod
      → svc.upstream_type ≢ cluster_ip
      → servers ≡ []
  unfolding create_stream_upstream
  servers-untyped not_node not_pod not_cluster =
      ap (λ (u : StreamUpstream). u.upstream_servers)
        (ap (λ b. by_type b (svc.upstream_type == pod) (svc.upstream_type == cluster_ip))
            (unequal not_node)
          ∙ (ap (λ b. by_type false b (svc.upstream_type == cluster_ip)) (unequal not_pod)
              ∙ ap (by_type false false) (unequal not_cluster)))

  -- Each server of the upstream stands at an address of the target.
  pub servers_sound :
      (srv : StreamUpstreamServer)
      → Elem srv servers
      → (address : String) × Reaches svc st.nodes t address × (srv ≡ plain address)
  servers_sound srv h = elim (String-cases svc.upstream_type pod) [
    | inl (e, _) ↦ elim (subst (Elem srv) (servers-pod e) h) [
      | inl same ↦ (_, at_pod e, same)
      | inr nowhere ↦ absurd nowhere
    ]
    | inr (not_pod, _) ↦ elim (String-cases svc.upstream_type cluster_ip) [
      | inl (e, _) ↦ elim (subst (Elem srv) (servers-cluster e) h) [
        | inl same ↦ (_, at_cluster e, same)
        | inr nowhere ↦ absurd nowhere
      ]
      | inr (not_cluster, _) ↦ elim (String-cases svc.upstream_type host_node) [
        | inl (e, _) ↦ elim (String-cases (node_set_of svc.service) host) [
          | inl (set, _) ↦
              at_cached e set (get t.node_name st.nodes) refl
                (subst (Elem srv) (servers-host e set) h)
          | inr (not_host, _) ↦ elim (String-cases (node_set_of svc.service) all_nodes) [
            | inl (set, _) ↦
                let (entry, there, same) =
                  map-Elem at_entry srv (rt.visit Node 0 st.nodes)
                    (subst (Elem srv) (servers-all e set) h) in
                (
                  _,
                  at_all entry.0 entry.1 e set
                      (Elem-perm entry (rt.visit-perm Node 0 st.nodes) there),
                  sym same,
                )
            | inr (not_all, _) ↦ absurd (subst (Elem srv) (servers-unset e not_host not_all) h)
          ]
        ]
        | inr (not_node, _) ↦
            absurd (subst (Elem srv) (servers-untyped not_node not_pod not_cluster) h)
      ]
    ]
  ]
    where
      at_cached :
          svc.upstream_type ≡ host_node
          → node_set_of svc.service ≡ host
          → (o : Option Node) → get t.node_name st.nodes ≡ o
          → Elem srv (by_node o)
          → (address : String) × Reaches svc st.nodes t address × (srv ≡ plain address)
      at_cached e set none f nowhere = absurd nowhere
      at_cached e set (some node) f (inl same) = (_, at_host node e set f, same)
      at_cached e set (some node) f (inr nowhere) = absurd nowhere

  -- At each address of the target the upstream has a server.
  pub servers_complete :
      (address : String) → Reaches svc st.nodes t address → Elem (plain address) servers
  servers_complete _ (at_pod e) = subst (Elem _) (sym (servers-pod e)) (inl refl)
  servers_complete _ (at_cluster e) = subst (Elem _) (sym (servers-cluster e)) (inl refl)
  servers_complete _ (at_host node e set f) =
      subst (Elem _) (sym (servers-host e set ∙ ap by_node f)) (inl refl)
  servers_complete _ (at_all name node e set there) = subst (Elem _) (sym (servers-all e set)) (
      Elem-map at_entry (name, node) (rt.visit Node 0 st.nodes)
        (Elem-perm (name, node) (Permᴰ.symm (rt.visit-perm Node 0 st.nodes)) there))
