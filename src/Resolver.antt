-- ===== src/Resolver.antt =====
-- simulation/nodes/_resolver_math.py: the resolution of one round. `Buckets` sorts the actions by
-- segment, `Clearing` computes a segment's new price, volume and sentiment, `Matching` lets its
-- buyers trade with its sellers, and `Round` is `pure_resolve_round`.
pub mod Buckets
pub mod Clearing
pub mod Matching
pub mod Round
