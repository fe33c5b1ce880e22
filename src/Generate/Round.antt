-- ===== src/Generate/Round.antt =====
-- One round of the loop of generateStreamNginxConfig: the invariant of the upstreams and servers that
-- the loop builds, and what a round adds to them.
use mathlib.Core.List.{append-nil}
use lbex.Prelude.{
  String, ◌≡◌, refl, sym, subst, ◌∙◌, ap, ◌≢◌, ◌⊎◌, inl, inr, Bool, true, false, Option, none, some,
  List, [], ◌∷◌, ◌++◌, arith, ◌==◌, eq_iff, All, All-append, All-imp, String-cases, if◌then◌else◌,
}
use lbex.Prelude.Dict.{get, IsMap}
use lbex.Runtime.{Runtime}
use lbex.Nginx.{Target, ServiceSpec, StreamUpstreamServer, StreamUpstream}
use lbex.Nginx.Options.{
  round_robin, lowest_latency, supported_methods, default_method, validate_method,
}
use lbex.Nginx.Options.Laws.{IsChoice, validate-IsChoice}
use lbex.Prelude.Int.{ℤ}
use lbex.K8s.{v1_service}
use lbex.Annotations.{Error, lbex_method_key, get_int_annotation, get_optional_string_annotation}
use lbex.Annotations.Laws.{value_or_empty, get_optional_string-service}
use lbex.Configurator.{State}
use lbex.Streams.{create_stream_upstream}
use lbex.Generate.{
  port_annotation, listening, with_algorithm, new_servers, Draft, insert_upstream, add_upstream,
}
use lbex.Generate.Upstreams.{
  upstream_of, merged, get-add_upstream, add_upstream-IsMap, with_algorithm-keeps,
}

abbrev pub servers_of : Option StreamUpstream → List StreamUpstreamServer
servers_of none = []
servers_of (some u) = u.upstream_servers

-- The method of least time that a service asks for.
abbrev pub requested_method : ServiceSpec → String
requested_method svc = value_or_empty (get lbex_method_key svc.service.annotations)

-- The directive of an upstream, for the service that it serves: the algorithm of the service, which
-- for round robin is not written, and a method only for least time, which is the one that the
-- service asks for if NGINX supports it, and the default otherwise.
pub record HasDirective (svc : ServiceSpec) (u : StreamUpstream) : Type 0 where
  pub algorithm : u.algorithm ≡ (if svc.algorithm == "round_robin" then "" else svc.algorithm)
  pub no_method : svc.algorithm ≢ "least_time" → u.least_time_method ≡ ""
  pub method :
      svc.algorithm ≡ "least_time"
      → IsChoice
          ("connect" ∷ "first_byte" ∷ "last_byte" ∷ "connect inflight" ∷ "first_byte inflight"
            ∷ "last_byte inflight" ∷ [])
          "connect"
          (requested_method svc)
          u.least_time_method

-- What holds between two rounds: the upstreams form a map, each under its own name and with a good
-- directive, and each server passes its traffic to one of them.
pub record IsDraft (svc : ServiceSpec) (d : Draft) : Type 0 where
  pub is_map : IsMap d.upstreams
  pub keyed : (k : String) (u : StreamUpstream) → get k d.upstreams ≡ some u → u.name ≡ k
  pub directive :
      (k : String) (u : StreamUpstream) → get k d.upstreams ≡ some u → HasDirective svc u
  pub referenced : All (λ s. get s.proxy_pass_address d.upstreams ≢ none) d.servers

-- An upstream as create*StreamUpstream returns it.
abbrev pub IsFresh : StreamUpstream → Type 0
IsFresh u = (u.algorithm ≡ "") × (u.least_time_method ≡ "")

pub create_stream_upstream-IsFresh :
    (rt : Runtime) (svc : ServiceSpec) (st : State) (target : Target)
    → IsFresh (upstream_of rt svc st target)
unfolding create_stream_upstream
create_stream_upstream-IsFresh rt svc st target = (ground arith, ground arith)

least_time-method :
    (svc : ServiceSpec) (u : StreamUpstream)
    → svc.algorithm ≡ "least_time"
    → (with_algorithm svc u).least_time_method
      ≡ validate_method (get_optional_string_annotation lbex_method_key (v1_service svc.service)).0
unfolding with_algorithm
least_time-method svc u e = ground (
  arith,
  eq_iff svc.algorithm round_robin,
  eq_iff svc.algorithm lowest_latency,
  eq_iff lowest_latency round_robin,
)

pub with_algorithm-HasDirective :
    (svc : ServiceSpec) (u : StreamUpstream) → IsFresh u → HasDirective svc (with_algorithm svc u)
unfolding with_algorithm
with_algorithm-HasDirective svc u h = record {
  algorithm = ground (
    arith,
    eq_iff svc.algorithm round_robin,
    eq_iff u.algorithm lowest_latency,
    eq_iff svc.algorithm lowest_latency,
    eq_iff "" round_robin,
  );
  no_method = ground (
    arith,
    eq_iff u.algorithm lowest_latency,
    eq_iff "" lowest_latency,
    eq_iff svc.algorithm lowest_latency,
  );
  method = λ e.
      subst (IsChoice supported_methods default_method (requested_method svc))
        (ap validate_method (
            sym (
              ap (λ r. r.0)
                (get_optional_string-service lbex_method_key svc.service
                  (ground (arith, eq_iff lbex_method_key "")))))
          ∙ sym (least_time-method svc u e))
        (validate-IsChoice (requested_method svc)).1;
}

abbrev pub is_new : Option StreamUpstream → Bool
is_new none = true
is_new (some u) = false

-- A server that a target adds passes its traffic to the target's upstream.
new_servers-pass :
    (svc : ServiceSpec) (target : Target) (name : String)
    → All (λ s. s.proxy_pass_address ≡ name) (new_servers svc target name)
unfolding new_servers
new_servers-pass svc target name =
    by_number (get_int_annotation (port_annotation target) (v1_service svc.service))
  where
    by_number :
        (r : ℤ × Option Error)
        → All (λ s. s.proxy_pass_address ≡ name) (listening svc target name r)
    by_number (i, none) = (refl, tt)
    by_number (i, some err) = tt

module _ (svc : ServiceSpec) (target : Target) (u : StreamUpstream) (d : Draft) where
  servers_of-merged :
      (o : Option StreamUpstream)
      → (merged svc u o).upstream_servers ≡ servers_of o ++ u.upstream_servers
  servers_of-merged none = (with_algorithm-keeps svc u).1
  servers_of-merged (some elem') = refl

  merged-keyed :
      IsDraft svc d
      → (o : Option StreamUpstream) → get u.name d.upstreams ≡ o
      → (merged svc u o).name ≡ u.name
  merged-keyed h none e = (with_algorithm-keeps svc u).0
  merged-keyed h (some elem') e = h.keyed u.name elem' e

  merged-directive :
      IsDraft svc d
      → IsFresh u
      → (o : Option StreamUpstream) → get u.name d.upstreams ≡ o
      → HasDirective svc (merged svc u o)
  merged-directive h fresh none e = with_algorithm-HasDirective svc u fresh
  merged-directive h fresh (some elem') e =
      let kept = h.directive u.name elem' e in
      record { algorithm = kept.algorithm; no_method = kept.no_method; method = kept.method }

  -- What is found under a key: what was there, or under the upstream's own name the merged one.
  get-add_upstream-inv :
      (k : String) (v : StreamUpstream)
      → get k (add_upstream svc target u d).upstreams ≡ some v
      → ((u.name ≡ k) × (merged svc u (get u.name d.upstreams) ≡ v)) ⊎ (get k d.upstreams ≡ some v)
  get-add_upstream-inv k v e = elim (String-cases u.name k) [
    | inl (named, same) ↦ inl (named, ground (arith, get-add_upstream svc target u d k))
    | inr (unlike, other) ↦ inr (ground (arith, get-add_upstream svc target u d k))
  ]

  -- Adding an upstream appends its servers under its name, and changes no other entry.
  pub servers_of-add_upstream :
      (k : String)
      → servers_of (get k (add_upstream svc target u d).upstreams)
        ≡ servers_of (get k d.upstreams) ++ (if u.name == k then u.upstream_servers else [])
  servers_of-add_upstream k = elim (String-cases u.name k) [
    | inl (e, same) ↦
        rw (get-add_upstream, same)
          (servers_of-merged (get u.name d.upstreams)
            ∙ ap (λ j. servers_of (get j d.upstreams) ++ u.upstream_servers) e)
    | inr (e, other) ↦ rw (get-add_upstream, other) (sym (append-nil _))
  ]

  add_upstream-keyed :
      IsDraft svc d
      → (k : String) (v : StreamUpstream) → get k (add_upstream svc target u d).upstreams ≡ some v
      → v.name ≡ k
  add_upstream-keyed h k v e = elim (get-add_upstream-inv k v e) [
    | inl (named, is_merged) ↦
        ap (λ (w : StreamUpstream). w.name) (sym is_merged) ∙ (merged-keyed h _ refl ∙ named)
    | inr old ↦ h.keyed k v old
  ]

  add_upstream-directive :
      IsDraft svc d
      → IsFresh u
      → (k : String) (v : StreamUpstream) → get k (add_upstream svc target u d).upstreams ≡ some v
      → HasDirective svc v
  add_upstream-directive h fresh k v e = elim (get-add_upstream-inv k v e) [
    | inl (named, is_merged) ↦ subst (HasDirective svc) is_merged (merged-directive h fresh _ refl)
    | inr old ↦ h.directive k v old
  ]

  pub add_upstream-keeps :
      (k : String) → get k d.upstreams ≢ none → get k (add_upstream svc target u d).upstreams ≢ none
  add_upstream-keeps k h = rw get-add_upstream (ground arith)

  pub add_upstream-present : get u.name (add_upstream svc target u d).upstreams ≢ none
  add_upstream-present = rw get-add_upstream (ground (arith, eq_iff u.name u.name))

  pub servers-add_upstream :
      (add_upstream svc target u d).servers
      ≡ d.servers ++ (if is_new (get u.name d.upstreams) then new_servers svc target u.name else [])
  unfolding add_upstream
  servers-add_upstream = by_present (get u.name d.upstreams)
    where
      by_present :
          (o : Option StreamUpstream)
          → (insert_upstream svc target u d o).servers
            ≡ d.servers ++ (if is_new o then new_servers svc target u.name else [])
      by_present none = refl
      by_present (some elem') = sym (append-nil d.servers)

  pub add_upstream-IsDraft : IsDraft svc d → IsFresh u → IsDraft svc (add_upstream svc target u d)
  add_upstream-IsDraft h fresh = record {
    is_map = add_upstream-IsMap svc target u d h.is_map;
    keyed = add_upstream-keyed h;
    directive = add_upstream-directive h fresh;
    referenced =
        subst (All (λ s. get s.proxy_pass_address (add_upstream svc target u d).upstreams ≢ none))
          (sym servers-add_upstream)
          (All-append _ d.servers _
            (All-imp (λ s. add_upstream-keeps s.proxy_pass_address) d.servers h.referenced)
            (if_new (is_new (get u.name d.upstreams))));
  }
    where
      if_new :
          (b : Bool)
          → All
              (λ s. get s.proxy_pass_address (add_upstream svc target u d).upstreams ≢ none)
              (if b then new_servers svc target u.name else [])
      if_new true =
          All-imp
            (λ s e.
              subst (λ k. get k (add_upstream svc target u d).upstreams ≢ none) (sym e)
                add_upstream-present)
            (new_servers svc target u.name) (new_servers-pass svc target u.name)
      if_new false = tt
