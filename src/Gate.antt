-- ===== src/Gate.antt =====
-- GateServer: the HTTP gateway.
pub mod Url
pub mod Accounts
pub mod Request
