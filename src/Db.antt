-- ===== src/Db.antt =====
-- The tables of backend/prisma/schema.prisma that the modelled code reads and writes, and the
-- client's calls on them.
pub mod Types
pub mod Exec
pub mod Tables
pub mod Laws
pub mod Atomic
