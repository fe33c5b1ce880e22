-- ===== src/Config.antt =====
-- config.go: the values of the command line flags.
use lbex.Prelude.{String, Bool, true, false}
use lbex.Prelude.Int.{ℤ, pos}

pub record Config : Type 0 where
  pub kubeconfig : String
  pub proxy : String
  pub service_name : String
  pub service_pool : String
  pub strict_affinity : Bool
  pub anti_affinity : Bool
  pub version : Bool
  pub health_check : Bool
  pub health_check_port : ℤ
  pub require_port : Bool

-- newConfig: the values of the flags that nothing sets
abbrev pub new_config : Config
new_config = record {
  kubeconfig = "";
  proxy = "";
  service_name = "";
  service_pool = "";
  strict_affinity = false;
  anti_affinity = false;
  version = false;
  health_check = true;
  health_check_port = pos 7331;
  require_port = true;
}
