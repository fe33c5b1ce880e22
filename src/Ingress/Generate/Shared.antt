-- ===== src/Ingress/Generate/Shared.antt =====
-- When two backends of an ingress share an upstream of generateNginxIngressCfg in
-- nginx/configurator.go.
use lbex.Prelude.{String, ◌≡◌, ◌∙◌, ap}
use Prim.Native.String.{◌++◌ as ◌⧺◌}
use text.Mathlib.TextLemmas.{append_assoc}
use lbex.Prelude.Dict.{Dict}
use lbex.Outcome.{Outcome}
use lbex.K8s.{IntOrString}
use lbex.Nginx.Http.{Upstream}
use lbex.Ingress.{HttpIngressPath, Ingress}
use lbex.Ingress.Upstream.{get_name_for_upstream}

-- Rules for the hosts `a-b` and `a` share an upstream, if the paths name the services `c` and `b-c`:
-- the hyphens that join the parts of a name may stand in the parts.
pub upstream_name-collides :
    (ing : Ingress) (a b c : String)
    → get_name_for_upstream ing (a ⧺ "-" ⧺ b) c ≡ get_name_for_upstream ing a (b ⧺ "-" ⧺ c)
unfolding get_name_for_upstream
upstream_name-collides ing a b c =
    ap (λ r. ing.namespace ⧺ "-" ⧺ ing.name ⧺ "-" ⧺ r)
      (append_assoc a ("-" ⧺ b) ("-" ⧺ c) ∙ ap (λ r. a ⧺ r) (append_assoc "-" b ("-" ⧺ c)))

abbrev with_port : HttpIngressPath → IntOrString → HttpIngressPath
with_port path port = record path { backend = record path.backend { service_port = port } }
