-- ===== src/Tnet.antt =====
-- internal/tnetenc/tnetenc.go (the encoder) and pkg/importer/tnetstring.go (the decoder).
pub mod Value
pub mod Encode
pub mod Reader
pub mod Decode
mod Tests
