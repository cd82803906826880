-- ===== src/Actor.antt =====
-- movie/actor: the paths of actors.
pub mod Path
