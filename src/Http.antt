-- ===== src/Http.antt =====
-- src/http: the routes and the handlers, from a request that the framework axum has taken apart to
-- the reply that it sends back.
pub mod Headers
pub mod Handlers
pub mod Safety
pub mod Accounts
pub mod Keys
pub mod Router
pub mod Serving
pub mod Receipts
pub mod History
pub mod Panics
pub mod Opened
pub mod Layers
