-- ===== src/Acp.antt =====
-- backend/src/modules/acp/acpTunnel.ts: the tunnel between the runs and the proxies of their agents.
pub mod Chunks
pub mod Finalize
pub mod Once
pub mod Sessions
pub mod Updates
pub mod Prompts
mod Tests
