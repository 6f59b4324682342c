-- ===== src/Communication.antt =====
-- src/communication: publishers, subscribers, notifications and RPC servers over a transport.
pub mod Publisher
pub mod NotificationSource
pub mod NotificationSink
pub mod Subscriber
pub mod RpcServer
pub mod RpcExpiry
pub mod RpcClient
pub mod Notifications
pub mod Senders
pub mod Listeners
pub mod RoundTrip
pub mod Tests
