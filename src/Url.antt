-- ===== src/Url.antt =====
-- src/UrlParser.cpp and include/UrlParser.h: hexadecimal digits, percent decoding, and the parser of
-- query texts.
pub mod Hex
pub mod Percent
pub mod Query
mod Tests
