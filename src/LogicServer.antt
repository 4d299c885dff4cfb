-- ===== src/LogicServer.antt =====
-- wxf/services/server: the logic service behind the gateways.
pub mod Dispatcher
pub mod Handler
pub mod Login
pub mod Routes
pub mod Serving
