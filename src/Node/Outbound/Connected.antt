-- ===== src/Node/Outbound/Connected.antt =====
-- Whom `connect_peer` of crates/gpumesh-core/src/node.rs reaches.
use gpu_share.Storage.Peers.{Peers}
use gpu_share.Base.{nat_eq, string_eq}
