-- ===== src/Topology/Endpoints.antt =====
-- The endpoints of a service port: the loops of getEndpoints against the Cartesian product that its
-- comment describes.
use lbex.Prelude.{
  String, ◌≡◌, refl, sym, ◌∙◌, ap, Bool, true, false, not, ◌&&◌, ◌||◌, Option, none, some, List, [],
  ◌∷◌, ◌++◌, map, arith, ◌==◌, any, if◌then◌else◌,
}
use mathlib.Core.List.{append_assoc, append-nil}
use mathlib.Core.Bool.{and-false}
use lbex.Prelude.Int.{ℤ, pos, eqb_ℤ, eqb_ℤ_iff, IsInt32, to_int32_id}
use lbex.Outcome.{Outcome, done, halt, nil_dereference, ◌>>=◌}
use lbex.Client.{Client, Store}
use lbex.K8s.{
  V1Service, V1ServicePort, V1Endpoints, V1EndpointAddress, V1EndpointPort, V1EndpointSubset,
  IntstrType, int, string,
}
use lbex.Service.{Endpoint}
use lbex.Topology.{
  target_port, endpoint_of, address_endpoints, port_endpoints, subset_endpoints,
  get_service_endpoints, get_endpoints, endpoints_or_none,
}

-- An endpoint port serves a service port if it has the target's number or name, and is not 0.
abbrev names_target : IntstrType → V1ServicePort → V1EndpointPort → Bool
names_target int sp ep = eqb_ℤ ep.port sp.target_port.int_val
names_target string sp ep = ep.name == sp.target_port.str_val

abbrev pub serves : V1ServicePort → V1EndpointPort → Bool
serves sp ep = names_target sp.target_port.type sp ep && not (eqb_ℤ ep.port (pos 0))

abbrev pub text_or_empty : Option String → String
text_or_empty none = ""
text_or_empty (some t) = t

abbrev pub is_none : Option String → Bool
is_none none = true
is_none (some t) = false

abbrev has_unnamed : List V1EndpointAddress → Bool
has_unnamed = any (λ a. is_none a.node_name)

-- For each subset, for each of its ports that serves the service port, one endpoint for each address.
abbrev expand_port : V1ServicePort → V1EndpointPort → List V1EndpointAddress → List Endpoint
expand_port sp ep = map (λ a. record {
  service_port = sp.port;
  node_ip = "";
  node_name = text_or_empty a.node_name;
  node_port = sp.node_port;
  port_name = ep.name;
  pod_ip = a.ip;
  pod_port = ep.port;
  protocol = ep.protocol;
})

abbrev pub expand_ports :
    V1ServicePort → List V1EndpointAddress → List V1EndpointPort → List Endpoint
expand_ports sp addresses [] = []
expand_ports sp addresses (ep ∷ rest) =
    (if serves sp ep then expand_port sp ep addresses else []) ++ expand_ports sp addresses rest

abbrev pub expand : V1ServicePort → List V1EndpointSubset → List Endpoint
expand sp [] = []
expand sp (subset ∷ rest) = expand_ports sp subset.addresses subset.ports ++ expand sp rest

-- Some port that serves the service port stands beside an address that names no node.
abbrev pub reaches_unnamed : V1ServicePort → List V1EndpointSubset → Bool
reaches_unnamed sp = any (λ subset. any (serves sp) subset.ports && has_unnamed subset.addresses)

-- `bad` ends the call in a panic.
abbrev pub unless {ℓ} : {A : Type ℓ} → Bool → A → Outcome A
unless true a = halt nil_dereference
unless false a = done a

unless-if :
    {A : Type 0} (b : Bool) (x : A) → unless b x ≡ (if b then halt nil_dereference else done x)
unless-if true x = refl
unless-if false x = refl

-- A call that may panic, then one that may.
unless-bind :
    {A : Type 0} (b b' : Bool) (x y : A) (f : A → Outcome A)
    → f x ≡ unless b' y
    → (unless b x >>= f) ≡ unless (b || b') y
unless-bind true b' x y f h = refl
unless-bind false b' x y f h = h

-- The same where the first call is made only if `chosen`.
unless-bind-if :
    (chosen m bad : Bool) (acc e r : List Endpoint) (f : List Endpoint → Outcome (List Endpoint))
    → ((acc' : List Endpoint) → f acc' ≡ unless (m && bad) (acc' ++ r))
    → (if chosen then (unless bad (acc ++ e) >>= f) else f acc)
      ≡ unless ((chosen || m) && bad) (acc ++ ((if chosen then e else []) ++ r))
unless-bind-if true m true acc e r f h = refl
unless-bind-if true m false acc e r f h = h (acc ++ e) ∙ cc (and-false m, append_assoc acc e r)
unless-bind-if false m bad acc e r f h = h acc

not-if :
    {A : Type 0} (z : Bool) (skipped a b : A)
    → a ≡ b
    → (if z then skipped else a) ≡ (if not z then b else skipped)
not-if true skipped a b h = refl
not-if false skipped a b h = h

module _ (c : Client) (sp : V1ServicePort) where
  address_endpoints_lem :
      (ep : V1EndpointPort) (addresses : List V1EndpointAddress) (acc : List Endpoint)
      → address_endpoints sp ep ep.port addresses acc
        ≡ unless (has_unnamed addresses) (acc ++ expand_port sp ep addresses)
  unfolding address_endpoints
  address_endpoints_lem ep [] acc = ap done (sym (append-nil acc))
  address_endpoints_lem ep (a ∷ rest) acc =
      step a.node_name
        (λ n. address_endpoints_lem ep rest (acc ++ endpoint_of sp ep ep.port a n ∷ []))
    where
      step :
          (o : Option String)
          → ((n : String)
              → address_endpoints sp ep ep.port rest (acc ++ endpoint_of sp ep ep.port a n ∷ [])
                ≡ unless
                    (has_unnamed rest)
                    ((acc ++ endpoint_of sp ep ep.port a n ∷ []) ++ expand_port sp ep rest))
          → (elim o as (λ x. Outcome (List Endpoint)) [
            | none ↦ halt nil_dereference
            | some n ↦
                address_endpoints sp ep ep.port rest (acc ++ endpoint_of sp ep ep.port a n ∷ [])
          ])
            ≡ unless
                (is_none o || has_unnamed rest)
                (acc ++ endpoint_of sp ep ep.port a (text_or_empty o) ∷ expand_port sp ep rest)
      step none ih = refl
      step (some n) ih = ih n ∙ ap (unless (has_unnamed rest)) (append_assoc acc _ _)

  module _ (small : IsInt32 sp.target_port.int_val) where
    target_port_lem :
        (ep : V1EndpointPort)
        → target_port c sp ep ≡ (if names_target sp.target_port.type sp ep then ep.port else pos 0)
    unfolding target_port
    target_port_lem ep = ground (
      arith,
      c.int_value-int sp.target_port,
      to_int32_id sp.target_port.int_val,
      eqb_ℤ_iff ep.port sp.target_port.int_val,
    )

    -- one round of the loop over the ports
    port_step :
        (ep : V1EndpointPort) (addresses : List V1EndpointAddress) (rest : List V1EndpointPort)
        (acc : List Endpoint)
        → port_endpoints c sp addresses (ep ∷ rest) acc ≡ (
            if serves sp ep
            then (unless (has_unnamed addresses) (acc ++ expand_port sp ep addresses)
                >>= port_endpoints c sp addresses rest)
            else port_endpoints c sp addresses rest acc)
    unfolding port_endpoints
    port_step ep addresses rest acc =
        ap round (target_port_lem ep) ∙ by_name (names_target sp.target_port.type sp ep)
      where
        round : ℤ → Outcome (List Endpoint)
        round port =
            if eqb_ℤ port (pos 0)
            then port_endpoints c sp addresses rest acc
            else (address_endpoints sp ep port addresses acc >>= port_endpoints c sp addresses rest)

        by_name :
            (named : Bool)
            → round (if named then ep.port else pos 0) ≡ (
                if named && not (eqb_ℤ ep.port (pos 0))
                then (unless (has_unnamed addresses) (acc ++ expand_port sp ep addresses)
                    >>= port_endpoints c sp addresses rest)
                else port_endpoints c sp addresses rest acc)
        by_name true = not-if (eqb_ℤ ep.port (pos 0)) _ _ _ (
            ap (λ o. o >>= port_endpoints c sp addresses rest)
              (address_endpoints_lem ep addresses acc))
        by_name false = refl

    port_endpoints_lem :
        (addresses : List V1EndpointAddress) (ports : List V1EndpointPort) (acc : List Endpoint)
        → port_endpoints c sp addresses ports acc
          ≡ unless
              (any (serves sp) ports && has_unnamed addresses)
              (acc ++ expand_ports sp addresses ports)
    port_endpoints_lem addresses [] acc = unfold port_endpoints in ap done (sym (append-nil acc))
    port_endpoints_lem addresses (ep ∷ rest) acc =
        port_step ep addresses rest acc
        ∙ unless-bind-if (serves sp ep) (any (serves sp) rest) (has_unnamed addresses) acc
            (expand_port sp ep addresses) (expand_ports sp addresses rest)
            (port_endpoints c sp addresses rest) (port_endpoints_lem addresses rest)

    subset_endpoints_lem :
        (subsets : List V1EndpointSubset) (acc : List Endpoint)
        → subset_endpoints c sp subsets acc
          ≡ unless (reaches_unnamed sp subsets) (acc ++ expand sp subsets)
    unfolding subset_endpoints
    subset_endpoints_lem [] acc = ap done (sym (append-nil acc))
    subset_endpoints_lem (subset ∷ rest) acc =
        ap (λ o. o >>= subset_endpoints c sp rest)
          (port_endpoints_lem subset.addresses subset.ports acc)
        ∙ unless-bind _ (reaches_unnamed sp rest) _ _ (subset_endpoints c sp rest)
            (subset_endpoints_lem rest _ ∙ ap (unless _) (append_assoc acc _ _))

    -- Where the store has endpoints for the service, and the number of the target port fits in 32
    -- bits, the loops compute the Cartesian product: for each subset and each of its ports that
    -- serves the service port, one endpoint for each address, in this order, with the number and the
    -- node port of the service port, the name, number and protocol of the endpoint port (the empty
    -- name where it has none), and the IP address and the node of the address; and they panic exactly
    -- if one of those addresses names no node.
    pub get_endpoints_product :
        (endpoint_store : Store) (s : V1Service) (e : V1Endpoints)
        → get_service_endpoints endpoint_store s ≡ done (e, none)
        → get_endpoints c endpoint_store s sp ≡ (
            if reaches_unnamed sp e.subsets
            then halt nil_dereference
            else done (expand sp e.subsets))
    unfolding get_endpoints
    get_endpoints_product endpoint_store s e h =
        ap (λ r. r >>= endpoints_or_none c sp) h
        ∙ (subset_endpoints_lem e.subsets [] ∙ unless-if (reaches_unnamed sp e.subsets) _)
