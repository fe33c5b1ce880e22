-- ===== src/Environment/Laws.antt =====
-- Which value each flag has after envParse of config.go.
use lbex.Prelude.{
  String, Bool, true, false, not, ◌&&◌, ◌||◌, ◌≡◌, refl, sym, ◌∙◌, ap, subst, ◌≢◌, inl, inr, Option,
  none, some, List, [], ◌∷◌, ◌==◌, any, Elem, Distinct, arith, if◌then◌else◌, Bool-cases,
  String-cases, ◌⊎◌,
}
use lbex.Runtime.Laws.{some-injective}
use lbex.Prelude.Dict.{Dict, get, put, get-put}
use lbex.Environment.{
  FlagSet, env_support, variable_name, already_set, is_set, env_flag, env_flags, env_parse,
}

-- A flag of the command line has the variable of the name.
abbrev pub on_command_line : List String → String → Bool
on_command_line names key = any (λ n. env_support n && variable_name n == key) names

or-false : (b : Bool) → (b || false) ≡ b
or-false true = refl
or-false false = refl

with_key :
    (b rest : Bool) (k key : String) (set : Dict Bool)
    → (rest || is_set (get key (if b then put k true set else set)))
      ≡ ((b && k == key || rest) || is_set (get key set))
with_key true rest k key set = rw (get-put k key true set) (ground arith)
with_key false rest k key set = refl

is_set-already_set :
    (names : List String) (key : String) (set : Dict Bool)
    → is_set (get key (already_set names set)) ≡ (on_command_line names key || is_set (get key set))
unfolding already_set get
is_set-already_set [] key set = refl
is_set-already_set (name ∷ names) key set =
    is_set-already_set names key _ ∙ with_key (env_support name) _ (variable_name name) key set

module _ {F V : Type 0} (flags : FlagSet F V) (getenv : String → String) where
  -- envParse reads the flag from its variable: it is supported, the command line does not set it, and
  -- the variable is not empty.
  abbrev pub takes_env : F → String → Bool
  takes_env f name =
      env_support name
      && not (on_command_line (flags.visit f) (variable_name name))
      && not (getenv (variable_name name) == "")

  abbrev takes : Dict Bool → String → Bool
  takes set name =
      env_support name
      && not (is_set (get (variable_name name) set))
      && not (getenv (variable_name name) == "")

  env_flag-other :
      (set : Dict Bool) (name other : String) (r : F × Option String)
      → name ≢ other
      → flags.value (env_flag flags getenv set name r).0 other ≡ flags.value r.0 other
  unfolding env_flag
  env_flag-other set name other (f, err) h =
      ground (arith, flags.set-other f name (getenv (variable_name name)) other h)

  env_flag-kept :
      (set : Dict Bool) (name : String) (r : F × Option String)
      → takes set name ≡ false
      → flags.value (env_flag flags getenv set name r).0 name ≡ flags.value r.0 name
  unfolding env_flag
  env_flag-kept set name (f, err) h = ground (arith, h)

  env_flag-taken :
      (set : Dict Bool) (name : String) (r : F × Option String) (v : V)
      → takes set name ≡ true
      → flags.parse name (getenv (variable_name name)) ≡ some v
      → flags.value (env_flag flags getenv set name r).0 name ≡ v
  unfolding env_flag
  env_flag-taken set name (f, err) v h e =
      ground (arith, h, flags.set-parsed f name (getenv (variable_name name)) v e)

  kept-flags :
      (set : Dict Bool) (names : List String) (name : String) (r : F × Option String)
      → (takes set name ≡ false) ⊎ ¬ (Elem name names)
      → flags.value (env_flags flags getenv set names r).0 name ≡ flags.value r.0 name
  unfolding env_flags
  kept-flags set [] name r h = refl
  kept-flags set (first ∷ names) name r h =
      kept-flags set names name (env_flag flags getenv set first r) (rest h)
      ∙ step h (String-cases first name)
    where
      rest :
          (takes set name ≡ false) ⊎ ¬ (Elem name (first ∷ names))
          → (takes set name ≡ false) ⊎ ¬ (Elem name names)
      rest (inl e) = inl e
      rest (inr fresh) = inr (λ there. fresh (inr there))

      step :
          (takes set name ≡ false) ⊎ ¬ (Elem name (first ∷ names))
          → ((first ≡ name) × ((first == name) ≡ true))
            ⊎ ((first ≢ name) × ((first == name) ≡ false))
          → flags.value (env_flag flags getenv set first r).0 name ≡ flags.value r.0 name
      step h (inr (other, _)) = env_flag-other set first name r other
      step (inr fresh) (inl (e, _)) = absurd (fresh (inl (sym e)))
      step (inl kept) (inl (e, _)) =
          subst (λ n. flags.value (env_flag flags getenv set n r).0 name ≡ flags.value r.0 name)
            (sym e) (env_flag-kept set name r kept)

  taken-flags :
      (set : Dict Bool) (names : List String) (name : String) (r : F × Option String) (v : V)
      → Distinct names
      → Elem name names
      → takes set name ≡ true
      → flags.parse name (getenv (variable_name name)) ≡ some v
      → flags.value (env_flags flags getenv set names r).0 name ≡ v
  unfolding env_flags
  taken-flags set (first ∷ names) name r v (fresh, d) (inl e) h parsed =
      kept-flags set names name _ (inr (subst (λ n. ¬ (Elem n names)) (sym e) fresh))
      ∙ subst (λ n. flags.value (env_flag flags getenv set n r).0 name ≡ v) e
          (env_flag-taken set name r v h parsed)
  taken-flags set (first ∷ names) name r v (fresh, d) (inr there) h parsed =
      taken-flags set names name _ v d there h parsed
  taken-flags set [] name r v d nowhere h parsed = absurd nowhere

  -- The value that the command line, the environment and the defaults give a flag, in this order:
  -- that of its variable where envParse takes it, if it can be read, and its own otherwise.
  abbrev pub preferred : F → String → Option V
  preferred f name =
      if takes_env f name
      then flags.parse name (getenv (variable_name name))
      else some (flags.value f name)

  -- After envParse each flag has its preferred value, if it has one: the command line comes before
  -- the environment, and that before the default.
  pub env_parse-preferred :
      (f : F) (name : String) (v : V)
      → Distinct (flags.visit_all f)
      → Elem name (flags.visit_all f)
      → preferred f name ≡ some v
      → flags.value (env_parse flags getenv f).0 name ≡ v
  unfolding env_parse
  env_parse-preferred f name v d there h = elim (Bool-cases (takes_env f name)) [
    | inl taken ↦
        taken-flags _ (flags.visit_all f) name (f, none) v d there (same ∙ taken)
          (chosen true taken)
    | inr kept ↦
        kept-flags _ (flags.visit_all f) name (f, none) (inl (same ∙ kept))
        ∙ some-injective (chosen false kept)
  ]
    where
      same : takes (already_set (flags.visit f) []) name ≡ takes_env f name
      same =
          ap (λ b. env_support name && not b && not (getenv (variable_name name) == ""))
            (is_set-already_set (flags.visit f) (variable_name name) [] ∙ or-false _)

      chosen :
          (b : Bool)
          → takes_env f name ≡ b
          → (if b
              then flags.parse name (getenv (variable_name name))
              else some (flags.value f name))
            ≡ some v
      chosen b e =
          subst
            (λ c.
              (if c
                then flags.parse name (getenv (variable_name name))
                else some (flags.value f name))
              ≡ some v)
            e h
