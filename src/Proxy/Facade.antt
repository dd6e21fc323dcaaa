-- ===== src/Proxy/Facade.antt =====
-- acp-proxy/src/acpClientFacade.ts: what the proxy does for an agent in its sandbox.
pub mod Output
pub mod GuestPath
pub mod Permissions
