-- ===== src/Cluster.antt =====
-- internal/cluster: the nodes of a cluster and the SWIM membership protocol.
pub mod Node
pub mod Replication
pub mod Membership
