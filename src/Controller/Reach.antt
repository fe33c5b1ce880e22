-- ===== src/Controller/Reach.antt =====
-- The states that the controller can reach: the workers call the three sync functions in any order,
-- each with the stores as they are at that moment, while the handlers and workers change the queues.
use lbex.Runtime.{Runtime}
use lbex.Client.{Client}
use lbex.Config.{Config}
use lbex.K8s.{Object}
use lbex.Nginx.Control.{Os, World, NginxController}
use lbex.Ingress.Publish.{new_configurator}
use lbex.Queue.{WorkQueue}
use lbex.Controller.{LbExController, Stores, sync_nodes, sync_services, sync_endpoints}

-- Ranges may visit a map in another order in each call, so that each step has a runtime of its own.
module _ {Q : Type 0} (wq : WorkQueue Q) (os : Os) (c : Client) (cfg : Config) where
  pub data Step (ctl : LbExController Q) : LbExController Q → Type 1 where
    nodes_step :
        (rt : Runtime) (stores : Stores) (key : Object)
        → Step ctl (sync_nodes wq rt os c cfg stores key ctl).1
    services_step :
        (rt : Runtime) (stores : Stores) (key : Object)
        → Step ctl (sync_services wq rt os c cfg stores key ctl).1
    endpoints_step :
        (rt : Runtime) (stores : Stores) (key : Object)
        → Step ctl (sync_endpoints wq rt os c cfg stores key ctl).1
    queues_step :
        (endpoints services nodes : Q)
        → Step ctl (record ctl {
          endpoints_queue = endpoints;
          services_queue = services;
          nodes_queue = nodes;
        })

  -- from a controller that starts with the files of the world `w`
  pub data Reach (w : World) : LbExController Q → Type 1 where
    start :
        (ngxc : NginxController) (endpoints services nodes : Q)
        → Reach w (record {
          cfgtor = new_configurator ngxc w;
          endpoints_queue = endpoints;
          services_queue = services;
          nodes_queue = nodes;
        })
    later : {ctl ctl' : LbExController Q} → Reach w ctl → Step ctl ctl' → Reach w ctl'
