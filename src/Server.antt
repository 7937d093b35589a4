-- ===== src/Server.antt =====
-- crates/whdr-server: the daemon's queues, log, registries and planes.
pub mod ChannelClaims
pub mod DeliveryLog
pub mod OutboundQueue
pub mod Subscribers
pub mod SubscriberWs
pub mod Tokens
pub mod DispatchWindow
pub mod Ingest
pub mod Supervision
pub mod Daemon
pub mod ExtensionLink
pub mod Config
pub mod Metrics
pub mod ExtensionRegistration
pub mod Status
