-- ===== src/Config.antt =====
-- The configuration file: config_parser/config_parser.cc and include/config_parser.h.
-- Syntax has the classes, Printer `ToString`, Lexer `ParseToken`, Parser both `Parse` functions;
-- the other children hold the proofs.
pub mod Syntax
pub mod Printer
pub mod Lexer
pub mod Parser
pub mod Main
pub mod Fuel
pub mod Words
pub mod Printable
pub mod Rounds
pub mod RoundTrip
pub mod Scan
pub mod Sound
mod Tests
