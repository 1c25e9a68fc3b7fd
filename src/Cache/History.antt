-- ===== src/Cache/History.antt =====
-- The states that a cache can reach, and how they follow from the history of its insertions.
mod Defs
mod Windows
pub use Windows.{
  latest-All, latest-All_entry, latest-append, latest-append_absent, age_bound-All_fresh,
  has_key_of_old, All-of_append,
}
mod Steps
pub use Defs.*
pub use Steps.*
