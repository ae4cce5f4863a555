-- ===== src/Http.antt =====
-- src/protocol/http_parser.c and http_parser.h: the incremental parser of HTTP messages.
pub mod Types
pub mod Fields
pub mod Rounds
pub mod Loop
pub mod Lines
pub mod Header
pub mod Chunk
pub mod Message
pub mod Cursor
mod Tests
