-- ===== src/Handler.antt =====
-- The request handlers. Base has the class `RequestHandler` and the registry, Simple the handlers
-- without state, Files `StaticHandler`, Bucket `S3Handler`, Streams and Remote `ProxyHandler`.
pub mod Base
pub mod Simple
pub mod Files
pub mod Bucket
pub mod Streams
pub mod Remote
pub mod Dispatch
pub mod Keeps
pub mod Served
pub mod Codes
pub mod Throws
pub mod Samples
mod Tests
