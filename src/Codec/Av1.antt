-- ===== src/Codec/Av1.antt =====
-- src/codec/av1_obu.cc and src/codec/av1.cc: AV1 temporal units rebuilt from VA metadata.
pub mod Picture
pub mod Sequence
pub mod Tiles
pub mod Quantization
pub mod Motion
pub mod Header
pub mod Unit
pub mod Translation
mod Examples
