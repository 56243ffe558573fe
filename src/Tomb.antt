-- ===== src/Tomb.antt =====
-- pkg/tomb: the containers that hide a store.
pub mod Tree
pub mod State
pub mod Backends
pub mod Coffin
