-- ===== src/Start.antt =====
-- main.go, and newLbExController of controller.go: how the process starts.
pub mod Laws
use lbex.Prelude.{String, Bool, true, false, not, Option, none, some, ◌==◌, if◌then◌else◌}
use lbex.Outcome.{Outcome, done, halt, panicked}
use lbex.Config.{Config}
use lbex.Nginx.Control.{
  Configuration, local_cfg, stream_cfg, Os, NginxController, Act, ◌>>=◌, pure, fail, start,
}
use lbex.Nginx.Main.{new_nginx_controller}
use lbex.Ingress.Publish.{new_configurator}
use lbex.Controller.{LbExController}

-- What main takes from client-go: a `none` is an error, and `R` and `C` stand for *rest.Config and
-- *kubernetes.Clientset. `with_host` is `&rest.Config{Host: ...}`.
pub record Clients (R C : Type 0) : Type 0 where
  pub with_host : String → R
  pub build_config_from_flags : String → Option R
  pub in_cluster_config : Option R
  pub add_gv : R → R
  pub new_for_config : R → Option C

-- `if err != nil { panic(err.Error()) }`
unfoldable pub or_panic : {A : Type 0} → Option A → Outcome A
or_panic none = halt panicked
or_panic (some a) = done a

-- the choice of the configuration of the client in main, with inCluster, external and byProxy
unfoldable pub client_config : {R C : Type 0} → Clients R C → Config → Outcome R
unfolding or_panic
client_config clients cfg =
    if not (cfg.proxy == "")
    then done (clients.with_host cfg.proxy)
    else if not (cfg.kubeconfig == "")
    then or_panic (clients.build_config_from_flags cfg.kubeconfig)
    else or_panic clients.in_cluster_config

module _ (os : Os) {Q : Type 0} (new_task_queue : Q) where
  -- newLbExController; `darwin` is `runtime.GOOS == "darwin"`
  unfoldable pub new_lb_ex_controller : Bool → Config → Act (LbExController Q)
  unfolding new_nginx_controller start
  new_lb_ex_controller darwin cfg =
      let cfg_type = if darwin then local_cfg else stream_cfg in
      new_nginx_controller os cfg_type "/etc/nginx/" cfg.health_check cfg.health_check_port
      >>= λ ngxc. start os ngxc >>= λ started. λ w. (
        done (record {
          cfgtor = new_configurator ngxc w;
          endpoints_queue = new_task_queue;
          services_queue = new_task_queue;
          nodes_queue = new_task_queue;
        }),
        w,
      )

  abbrev pub outcome : {A : Type 0} → Outcome A → Act A
  outcome r w = (r, w)

  -- main up to `lbex.run()`, once the flags are read; `none` for the end after --version
  unfoldable pub main :
      {R C : Type 0} → Clients R C → Bool → Config → Act (Option (LbExController Q))
  unfolding client_config or_panic new_lb_ex_controller
  main clients darwin cfg =
      if cfg.version
      then pure none
      else (outcome (client_config clients cfg) >>= λ config.
          outcome (or_panic (clients.new_for_config (clients.add_gv config))) >>= λ clientset.
          new_lb_ex_controller darwin cfg >>= λ lbex. pure (some lbex))
