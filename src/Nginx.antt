-- ===== src/Nginx.antt =====
-- The data of package nginx for stream load balancing: nginx/node.go, nginx/service.go and
-- nginx/stream.go.
pub mod Options
pub mod Context
pub mod Http
pub mod Control
pub mod Files
pub mod Main
use lbex.Prelude.{String, Bool, List}
use lbex.Prelude.Int.{ℤ}
use lbex.K8s.{V1Service}

pub record Node : Type 0 where
  pub name : String
  pub hostname : String
  pub external_ip : String
  pub internal_ip : String
  pub active : Bool

pub record Target : Type 0 where
  pub service_port : ℤ
  pub node_ip : String
  pub node_name : String
  pub node_port : ℤ
  pub port_name : String
  pub pod_ip : String
  pub pod_port : ℤ
  pub protocol : String

pub record ServiceSpec : Type 0 where
  pub service : V1Service
  pub key : String
  pub algorithm : String
  pub cluster_ip : String
  pub config_name : String
  pub upstream_type : String
  pub topology : List Target

pub record StreamUpstreamServer : Type 0 where
  pub address : String
  pub weight : String
  pub max_conns : String
  pub max_fails : String
  pub fail_timeout : String
  pub backup : Bool
  pub down : Bool

pub record StreamUpstream : Type 0 where
  pub name : String
  pub algorithm : String
  pub least_time_method : String
  pub upstream_servers : List StreamUpstreamServer

pub record StreamListen : Type 0 where
  pub address : String
  pub port : String
  pub udp : Bool

pub record StreamServer : Type 0 where
  pub listen : StreamListen
  pub proxy_protocol : Bool
  pub proxy_passthrough : Bool
  pub proxy_protocol_timeout : String
  pub proxy_pass_address : String

pub record StreamNginxConfig : Type 0 where
  pub resolver : String
  pub upstreams : List StreamUpstream
  pub servers : List StreamServer
