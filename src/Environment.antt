-- ===== src/Environment.antt =====
-- config.go, envParse: the flags that are read from the environment.
pub mod Laws
use lbex.Prelude.{
  String, Bool, true, false, not, ◌&&◌, ◌≡◌, ◌≢◌, Option, none, some, List, [], ◌∷◌, ◌==◌, leb, ◌+◌,
  ◌-◌, any, if◌then◌else◌,
}
use Prim.Native.String.{◌++◌ as ◌⧺◌}
use lbex.Prelude.Text.{replace_all, to_upper}
use lbex.Prelude.Dict.{Dict, get, put}

-- What envParse takes from pflag. `visit` gives the names of the flags that are set, `visit_all` all
-- names, and `parse` the value that a flag reads from a text. Setting a flag gives it the value of the
-- text, if the text can be read, and leaves the other flags as they are.
pub record FlagSet (F V : Type 0) : Type 0 where
  pub visit : F → List String
  pub visit_all : F → List String
  pub set : F → String → String → F × Option String
  pub value : F → String → V
  pub parse : String → String → Option V
  pub set-parsed :
      (f : F) (name text : String) (v : V)
      → parse name text ≡ some v
      → value (set f name text).0 name ≡ v
  pub set-other :
      (f : F) (name text other : String)
      → name ≢ other
      → value (set f name text).0 other ≡ value f other

-- envSupport[name]: every flag of newConfig but `version`
unfoldable pub env_support : String → Bool
env_support name =
    any (λ n. n == name)
      ("kubeconfig" ∷ "proxy" ∷ "service-name" ∷ "service-pool" ∷ "strict-affinity"
        ∷ "anti-affinity" ∷ "health-check" ∷ "health-port" ∷ "require-port" ∷ [])

unfoldable pub variable_name : String → String
unfolding replace_all to_upper
variable_name name = "LBEX_" ⧺ to_upper (replace_all "-" "_" name)

-- the first loop: the variables of the flags that are set on the command line
unfoldable pub already_set : List String → Dict Bool → Dict Bool
unfolding env_support variable_name put
already_set [] set = set
already_set (name ∷ names) set =
    already_set names (if env_support name then put (variable_name name) true set else set)

abbrev pub is_set : Option Bool → Bool
is_set none = false
is_set (some b) = b

module _ {F V : Type 0} (flags : FlagSet F V) (getenv : String → String) where
  -- one round of the second loop; the error is that of the last flag that could not be set
  unfoldable pub env_flag : Dict Bool → String → F × Option String → F × Option String
  unfolding env_support variable_name get
  env_flag set name (f, err) =
      let key = variable_name name in
      let val = getenv key in
      let (f', serr) = flags.set f name val in
      if env_support name
      then if is_set (get key set)
        then (f, err)
        else if not (val == "")
        then (
          f',
          elim serr [
            | none ↦ err
            | some e ↦ some ("invalid value " ⧺ val ⧺ " for " ⧺ key ⧺ ": " ⧺ e)
          ],
        )
        else (f, err)
      else (f, err)

  unfoldable pub env_flags : Dict Bool → List String → F × Option String → F × Option String
  unfolding env_flag
  env_flags set [] r = r
  env_flags set (name ∷ names) r = env_flags set names (env_flag set name r)

  -- envParse; its last loop only logs
  unfoldable pub env_parse : F → F × Option String
  unfolding already_set env_flags
  env_parse f = env_flags (already_set (flags.visit f) []) (flags.visit_all f) (f, none)
