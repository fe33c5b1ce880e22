-- ===== src/Start/Laws.antt =====
-- How the process starts: main.go, and newLbExController of controller.go.
use lbex.Prelude.{false, ◌≡◌, refl, sym, ◌∙◌, ap, subst, some, [], ◌∷◌, ◌++◌, arith}
use lbex.Prelude.Dict.{get, put, get-put}
use lbex.Outcome.{done, done-injective}
use lbex.Config.{Config}
use lbex.Client.{Client}
use lbex.Queue.{WorkQueue}
use lbex.Nginx.Context.{NginxMainConfig}
use lbex.Nginx.Control.{
  stream_cfg, main_conf, World, Os, NginxController, Act, ◌>>=◌, shell_out, start,
}
use lbex.Nginx.Files.Laws.{act-done}
use lbex.Nginx.Main.{main_conf_filename, new_nginx_controller}
use lbex.Nginx.Main.Laws.{IsMain, new_nginx_controller_lem}
use lbex.Ingress.Publish.{new_configurator}
use lbex.Controller.{LbExController}
use lbex.Controller.Reach.{Reach}
use lbex.Start.{new_lb_ex_controller}

-- The controller that newLbExController makes, and what it leaves: the main file of NGINX has the
-- default context for streams and the health settings of the flags, and NGINX is started.
pub record IsStarted (cfg : Config) (w w' : World) : Type 0 where
  pub main :
      (m : NginxMainConfig) × (get main_conf_filename w'.files ≡ some (main_conf (some m)))
      × IsMain stream_cfg cfg.health_check cfg.health_check_port m
  pub commands : w'.commands ≡ w.commands ++ "nginx" ∷ []

start_lem :
    (os : Os) (ngxc : NginxController) (w w' : World)
    → ngxc.cfg_type ≡ stream_cfg
    → start os ngxc w ≡ (done tt, w')
    → (record w { commands = w.commands ++ "nginx" ∷ [] }) ≡ w'
unfolding start shell_out
start_lem os ngxc w w' remote h = ground (arith, remote, h)

-- When newLbExController ends, outside of darwin, the controller is a start of what it can reach from
-- the files that it leaves, the
-- main file of NGINX has the default context for streams and the health settings of the flags, and
-- NGINX is started, once.
pub new_lb_ex_controller_lem :
    {Q : Type 0} (wq : WorkQueue Q) (os : Os) (c : Client) (queue : Q) (cfg : Config) (w w' : World)
    (ctl : LbExController Q)
    → new_lb_ex_controller os queue false cfg w ≡ (done ctl, w')
    → Reach wq os c cfg w' ctl × IsStarted cfg w w'
unfolding new_lb_ex_controller
new_lb_ex_controller_lem {Q} wq os c queue cfg w w' ctl h =
    let (ngxc, w1, e1, f1) =
      act-done
        (new_nginx_controller os stream_cfg "/etc/nginx/" cfg.health_check cfg.health_check_port)
        (λ ngxc. start os ngxc >>= built ngxc) ctl w w' h in
    let (_, w2, e2, f2) = act-done (start os ngxc) (built ngxc) ctl w1 w' f1 in
    let made =
      new_nginx_controller_lem os stream_cfg "/etc/nginx/" cfg.health_check cfg.health_check_port w
        w1 ngxc refl e1 in
    let started = start_lem os ngxc w1 w2 made.type e2 in
    let (m, is_some, is_main) = made.main in
    (
      subst (λ v. Reach wq os c cfg v ctl) (ap (λ r. r.1) f2)
          (subst (Reach wq os c cfg w2) (done-injective (ap (λ r. r.0) f2))
            (Reach.start ngxc queue queue queue)),
      subst (IsStarted cfg w) (ap (λ r. r.1) f2) (record {
        main = (m, file ngxc w1 w2 m started made.world is_some, is_main);
        commands =
            ap (λ (v : World). v.commands) (sym started)
            ∙ ap (λ (v : World). v.commands ++ "nginx" ∷ []) (sym made.world);
      }),
    )
  where
    file :
        (ngxc : NginxController) (w1 w2 : World) (m : NginxMainConfig)
        → (record w1 { commands = w1.commands ++ "nginx" ∷ [] }) ≡ w2
        → (record w { files = put main_conf_filename (main_conf ngxc.main_cfg) w.files }) ≡ w1
        → ngxc.main_cfg ≡ some m
        → get main_conf_filename w2.files ≡ some (main_conf (some m))
    file ngxc w1 w2 m e f g =
        ap (λ (v : World). get main_conf_filename v.files) (sym e)
        ∙ (ap (λ (v : World). get main_conf_filename v.files) (sym f)
            ∙ (get-put main_conf_filename main_conf_filename (main_conf ngxc.main_cfg) w.files
                ∙ ap (λ o. some (main_conf o)) g))

    built : NginxController → Unit {0} → Act (LbExController Q)
    built ngxc started w = (
      done (record {
        cfgtor = new_configurator ngxc w;
        endpoints_queue = queue;
        services_queue = queue;
        nodes_queue = queue;
      }),
      w,
    )
