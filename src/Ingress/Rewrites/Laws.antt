-- ===== src/Ingress/Rewrites/Laws.antt =====
-- What parseRewrites and getRewrites of nginx/configurator.go read.
use lbex.Prelude.{
  String, false, ◌≡◌, refl, ◌∙◌, ap, Option, none, some, List, map, All, arith, ◌==◌, if◌then◌else◌,
}
use Prim.Native.Char.{Char}
use Prim.Native.String.{◌++◌ as ◌⧺◌, ◌∷◌}
use mathlib.Core.List.{[] as nil, ◌∷◌ as ◌◂◌}
use text.Mathlib.TextLemmas.{nil-append, cons-append}
use lbex.Prelude.Dict.{Dict, get, put, get-put}
use lbex.Prelude.Split.{
  contains, contains-append, split, split_2, split-one, split-first, split_2-first, join,
  AllWithout, split-join,
}
use lbex.Ingress.Rewrites.{
  second_of_two, rewrite_parts, parse_rewrites, put_rewrites, rewrites_of, get_rewrites,
}

-- A rewrite of a service, and how the annotation writes it.
pub record Rewrite : Type 0 where
  pub service : String
  pub path : String

abbrev pub rewrite_text : Rewrite → String
rewrite_text r = ("serviceName" ⧺ "=" ⧺ r.service) ⧺ " " ⧺ "rewrite" ⧺ "=" ⧺ r.path

-- The service has no space, and neither text has a character that separates.
abbrev pub IsPlainRewrite : Rewrite → Type 0
IsPlainRewrite r =
    (contains b' ' r.service ≡ false)
    × (contains b'=' r.service ≡ false)
    × (contains b';' r.service ≡ false)
    × (contains b'=' r.path ≡ false)
    × (contains b';' r.path ≡ false)

one-append : (c : Char) (s : String) → (c ∷ "") ⧺ s ≡ c ∷ s
one-append c s = cons-append c "" s ∙ ap (λ t. c ∷ t) (nil-append s)

key-value :
    (key value : String)
    → contains b'=' key ≡ false
    → contains b'=' value ≡ false
    → second_of_two (split b'=' (key ⧺ "=" ⧺ value)) ≡ some value
key-value key value h k =
    rw (one-append "=" value, split-first b'=' key "=" value h refl, split-one b'=' value k) refl

-- A rewrite that the annotation writes is read back.
pub parse_rewrites_roundtrip :
    (r : Rewrite) → IsPlainRewrite r → parse_rewrites (rewrite_text r) ≡ some (r.service, r.path)
unfolding parse_rewrites rewrite_parts contains
parse_rewrites_roundtrip r (space, equals, semicolon, path_equals, path_semicolon) =
    ap (λ s. rewrite_parts (split_2 b' ' (("serviceName" ⧺ "=" ⧺ r.service) ⧺ s)))
      (one-append " " _)
    ∙ (ap rewrite_parts (split_2-first b' ' ("serviceName" ⧺ "=" ⧺ r.service) " " _ no_space refl)
        ∙ rw
            (
              rewrite_parts,
              key-value "serviceName" r.service refl equals,
              key-value "rewrite" r.path refl path_equals,
            )
            refl)
  where
    no_space : contains b' ' ("serviceName" ⧺ "=" ⧺ r.service) ≡ false
    no_space = rw (contains-append b' ' "serviceName", contains-append b' ' "=") space

-- The path of the last rewrite of a service.
abbrev pub path_of : String → List Rewrite → Option String
path_of service nil = none
path_of service (r ◂ rs) = elim (path_of service rs) [
  | some path ↦ some path
  | none ↦ if r.service == service then some r.path else none
]

abbrev or_else : Option String → Option String → Option String
or_else (some path) other = some path
or_else none other = other

put_rewrites-get :
    (service : String) (rs : List Rewrite) (rewrites : Dict String)
    → All IsPlainRewrite rs
    → get service (put_rewrites (map rewrite_text rs) rewrites)
      ≡ or_else (path_of service rs) (get service rewrites)
unfolding put_rewrites
put_rewrites-get service nil rewrites h = refl
put_rewrites-get service (r ◂ rs) rewrites (plain, h) =
    rw
      (
        put_rewrites,
        parse_rewrites_roundtrip r plain,
        put_rewrites-get service rs (put r.service r.path rewrites) h,
        get-put r.service service r.path rewrites,
      )
      (ground arith)

texts-AllWithout :
    (rs : List Rewrite) → All IsPlainRewrite rs → AllWithout b';' (map rewrite_text rs)
unfolding contains
texts-AllWithout nil h = tt
texts-AllWithout (r ◂ rs) ((space, equals, semicolon, path_equals, path_semicolon), h) = (
  rw
      (
        contains-append b';' ("serviceName" ⧺ "=" ⧺ r.service),
        contains-append b';' "serviceName",
        contains-append b';' "=" r.service,
        contains-append b';' " ",
        contains-append b';' "rewrite",
        contains-append b';' "=" r.path,
      )
      (ground (arith, semicolon, path_semicolon)),
  texts-AllWithout rs h,
)

-- Where the annotation writes a list of rewrites, with no separator inside a name or a path,
-- getRewrites gives each service the path of its last rewrite, and no other service a path.
pub get_rewrites_roundtrip :
    (r : Rewrite) (rs : List Rewrite) (annotations : Dict String) (service : String)
    → All IsPlainRewrite (r ◂ rs)
    → get "nginx.org/rewrites" annotations ≡ some (join ";" (map rewrite_text (r ◂ rs)))
    → get service (get_rewrites annotations) ≡ path_of service (r ◂ rs)
unfolding get_rewrites rewrites_of get
get_rewrites_roundtrip r rs annotations service h written =
    ap (λ o. get service (rewrites_of o)) written
    ∙ (ap (λ parts. get service (put_rewrites parts nil))
          (split-join b';' ";" (rewrite_text r) (map rewrite_text rs) refl
            (texts-AllWithout (r ◂ rs) h))
        ∙ (put_rewrites-get service (r ◂ rs) nil h ∙ ground arith))
