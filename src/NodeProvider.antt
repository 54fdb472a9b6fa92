-- ===== src/NodeProvider.antt =====
-- nodeprovider: where the nodes of a pool come from.
pub mod Aws
pub mod Karpenter
pub mod AnyNode
pub mod Util
