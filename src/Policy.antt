-- ===== src/Policy.antt =====
-- crates/topgent-policy/src: the response that a rule asks for (lib.rs).
pub mod Firing
pub mod Satisfiable
pub mod Exceptions
mod Tests

pub data ResponseMode : Type 0 where
  observe alert approval block kill : ResponseMode
