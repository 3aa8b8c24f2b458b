-- ===== src/Swarm.antt =====
-- internal/swarm: the pure decision engine of the mesh, in which the Viewers of a party serve
-- cached Segments to one another.
pub mod Engine
pub mod Haves
pub mod Peers
pub mod Select
pub mod Integrity
