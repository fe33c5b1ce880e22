-- ===== src/Controller/Names.antt =====
-- The configuration names of controller.go, syncServices: a service's key with each slash replaced.
use lbex.Prelude.{String, ◌≡◌, refl, sym, ◌∙◌, ap, ◌≢◌, ℕ, arith, nat_beq, if◌then◌else◌}
use Prim.Native.Char.{Char, code}
use Prim.Native.String.{[], ◌∷◌, ◌++◌}
use text.Mathlib.TextLemmas.{nil-append, cons-append}
use lbex.Controller.{conf_name}

conf_name-append : (s t : String) → conf_name (s ++ t) ≡ conf_name s ++ conf_name t
unfolding conf_name
conf_name-append [] t = ap conf_name (nil-append t) ∙ sym (nil-append (conf_name t))
conf_name-append (c ∷ s) t =
    ap conf_name (cons-append c s t)
    ∙ (ap (λ r. first ∷ r) (conf_name-append s t)
        ∙ sym (cons-append first (conf_name s) (conf_name t)))
  where
    first : Char
    first = if nat_beq (code c) (code "/") then "-" else c

first_code : String → ℕ
first_code [] = 0
first_code (c ∷ s) = code c

rest_of : String → String
rest_of [] = []
rest_of (c ∷ s) = s

-- The configuration name of a service is never its key.
pub conf_name-ne :
    (namespace name : String) → conf_name (namespace ++ "/" ++ name) ≢ namespace ++ "/" ++ name
unfolding conf_name first_code rest_of
conf_name-ne [] name e =
    let start : "" ++ "/" ++ name ≡ "/" ∷ name =
      nil-append _ ∙ (cons-append "/" [] name ∙ ap (λ r. "/" ∷ r) (nil-append name)) in
    let codes : first_code (conf_name ("/" ∷ name)) ≡ first_code ("/" ∷ name) =
      ap first_code (sym (ap conf_name start) ∙ (e ∙ start)) in
    omega arith
conf_name-ne (c ∷ s) name e = conf_name-ne s name (
    ap rest_of
      (sym (ap conf_name (cons-append c s ("/" ++ name))) ∙ (e ∙ cons-append c s ("/" ++ name))))

conf_name-joined :
    (s t u separator separator' : String)
    → conf_name separator ≡ conf_name "-"
    → conf_name separator' ≡ conf_name "-"
    → conf_name (s ++ separator ++ t ++ separator' ++ u)
      ≡ conf_name s ++ conf_name "-" ++ conf_name t ++ conf_name "-" ++ conf_name u
conf_name-joined s t u separator separator' e f =
    rw
      (
        conf_name-append s,
        conf_name-append separator,
        conf_name-append t,
        conf_name-append separator',
        e,
        f,
      )
      refl

-- Two services whose namespaces and names split one text at different hyphens share a configuration
-- name, as `a-b/c` and `a/b-c` do.
pub conf_name-collides :
    (a b c : String) → conf_name (a ++ "-" ++ b ++ "/" ++ c) ≡ conf_name (a ++ "/" ++ b ++ "-" ++ c)
conf_name-collides a b c =
    conf_name-joined a b c "-" "/" refl slash ∙ sym (conf_name-joined a b c "/" "-" slash refl)
  where
    slash : conf_name "/" ≡ conf_name "-"
    slash = unfold conf_name in refl
