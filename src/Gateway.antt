-- ===== src/Gateway.antt =====
-- backend/internal/gateway: the error contract (Respond), the two-key authentication (Auth), the
-- chat endpoint (Chat) and its SSE path (Stream). Here stands what they share: the state that a
-- request handler changes.
pub mod Respond
pub mod Auth
pub mod Chat
pub mod Complete
pub mod Conclusion
pub mod Stream
pub mod Serve
