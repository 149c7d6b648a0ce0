-- ===== src/Resolver.antt =====
-- The name cache of src/data/map/ns_hash.c and the queue of src/util/resolver.c between the capture
-- thread, which asks for names, and the two workers, which look them up. Each function is what its
-- caller does while it holds `resolver_queue_mutex`; a run is a sequence of such steps. inet_ntop is a
-- parameter, and the name that do_resolve returns is an argument of the step that stores it.
mod Defs
pub mod Cache
pub mod Ring
pub mod Workers
unfoldable pub use Defs.*
