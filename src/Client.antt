-- ===== src/Client.antt =====
-- src/client/usubscription/v3/.
pub mod UriBuilder
pub mod RequestBuilder
pub mod Subscription
pub mod Requests
pub mod Consumer
pub mod Tests
