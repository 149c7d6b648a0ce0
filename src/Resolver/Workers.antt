-- ===== src/Resolver/Workers.antt =====
-- The threads of src/util/resolver.c: the two workers of `resolver_worker` and the callers of
-- `resolve`, each step of which is what one of them does from a lock of `resolver_queue_mutex` to the
-- next unlock, or a signal of `resolver_queue_cond`, in any order.
mod Defs
mod Cached
pub mod Sound
pub mod Wake
pub mod Drain
unfoldable pub use Defs.*
