-- ===== src/Tests.antt =====
-- Concrete runs of the service, and the theorems of the development at concrete inputs.
mod Sample
mod Values
mod Requests
mod Payments
mod Edge
mod Requested
mod Serving
mod Histories
mod Layered
