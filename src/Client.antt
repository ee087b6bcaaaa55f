-- ===== src/Client.antt =====
-- internal/client: the connection to a provider.
pub mod Reconnect
pub mod Connection
