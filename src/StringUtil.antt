-- ===== src/StringUtil.antt =====
-- src/util/StringUtil.cc. A std::string is the list of its bytes; a `char` is its byte value.
pub mod Codec
pub mod RoundTrip
pub mod Split
pub mod Affix
mod Tests
