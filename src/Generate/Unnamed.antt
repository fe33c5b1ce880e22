-- ===== src/Generate/Unnamed.antt =====
-- Ports without a name in generateStreamNginxConfig, which reads another annotation for them than
-- baseCheck does.
use lbex.Prelude.{
  ◌≡◌, refl, sym, subst, ◌∙◌, ap, inl, inr, none, List, [], ◌∷◌, All, Elem, arith, eq_iff,
}
use text.Mathlib.TextLemmas.{append-nil}
use Prim.Native.String.{◌++◌ as ◌⧺◌}
use lbex.Prelude.Dict.{get}
use lbex.Prelude.Int.{ℤ}
use lbex.Runtime.{Runtime}
use lbex.K8s.{v1_service}
use lbex.Annotations.{lbex_port_annotation_base, get_int_annotation}
use lbex.Annotations.Laws.{int_result, get_int-service}
use lbex.Nginx.{Target, ServiceSpec, StreamServer}
use lbex.Configurator.{State}
use lbex.Generate.{port_annotation, generate_stream_nginx_config}
use lbex.Generate.Result.{Serves, generate-servers}

no_items : {A : Type 0} (xs : List A) → ((x : A) → Elem x xs → ⊥) → xs ≡ []
no_items [] h = refl
no_items (x ∷ xs) h = absurd (h x (inl refl))

All-at : {A : Type 0} (P : A → Type 0) (x : A) (xs : List A) → All P xs → Elem x xs → P x
All-at P x (y ∷ ys) (h, hs) (inl e) = subst P (sym e) h
All-at P x (y ∷ ys) (h, hs) (inr there) = All-at P x ys hs there
All-at P x [] h there = absurd there

-- If no target of a service has a port name, and the service has no annotation that ends right after
-- the slash, then its configuration has no server, whatever its other annotations are.
pub generate_unnamed :
    (rt : Runtime) (svc : ServiceSpec) (st : State)
    → All (λ (t : Target). t.port_name ≡ "") svc.topology
    → get lbex_port_annotation_base svc.service.annotations ≡ none
    → (generate_stream_nginx_config rt svc st).0.servers ≡ []
generate_unnamed rt svc st unnamed missing = no_items _ (λ s there.
    let (t, t_there, served) = generate-servers rt svc st s there in
    refused s t (All-at (λ (v : Target). v.port_name ≡ "") t svc.topology unnamed t_there) served)
  where
    refused : (s : StreamServer) (t : Target) → t.port_name ≡ "" → Serves rt svc st s t → ⊥
    refused s t e (i, numbered, port, udp, pass) = not_a_number (
        sym (ap (λ o. int_result lbex_port_annotation_base o) missing)
        ∙ (sym (
              get_int-service lbex_port_annotation_base svc.service
                (ground (arith, eq_iff lbex_port_annotation_base "")))
            ∙ (ap (λ a. get_int_annotation a (v1_service svc.service)) (sym (base e)) ∙ numbered)))
      where
        not_a_number : {i : ℤ} → int_result lbex_port_annotation_base none ≡ (i, none) → ⊥
        not_a_number h = cc

        base : t.port_name ≡ "" → port_annotation t ≡ lbex_port_annotation_base
        base e =
            unfold port_annotation in
            ap (λ n. lbex_port_annotation_base ⧺ n) e ∙ append-nil lbex_port_annotation_base
