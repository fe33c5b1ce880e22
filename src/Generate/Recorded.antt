-- ===== src/Generate/Recorded.antt =====
-- Which nodes createNodesStreamUpstream records for a service, for the set `host`.
use lbex.Runtime.{Runtime}
