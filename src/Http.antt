-- ===== src/Http.antt =====
-- The messages of the protocol: Request (src/request.cc) and Response (src/response.cc).
pub mod Response
pub mod Characters
pub mod Fields
pub mod Request
mod Tests
