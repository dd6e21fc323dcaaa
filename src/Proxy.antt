-- ===== src/Proxy.antt =====
-- acp-proxy/src: the proxy that runs the agents' sandboxes.
pub mod Zip
pub mod Facade
pub mod Inputs
pub mod Runs
mod Tests
