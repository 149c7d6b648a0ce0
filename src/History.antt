-- ===== src/History.antt =====
-- The flows of src/entry/iftop.c: their records, `history_create` and `history_free`,
-- `init_history` and `history_rotate`. A slot of a history counts one interval of `RESOLUTION`
-- seconds; the table keeps `HISTORY_LENGTH` of them in a ring whose current slot is `history_pos`.
mod Defs
pub mod Step
pub mod Rotate
pub mod Expiry
pub mod Start
unfoldable pub use Defs.*
