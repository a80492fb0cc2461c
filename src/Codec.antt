-- ===== src/Codec.antt =====
-- src/codec: the translators from VA-API parameters to access units, and the bit-level tools.
pub mod Writer
pub mod Reader
pub mod ExpGolomb
pub mod Nal
pub mod Syntax
pub mod H264
pub mod Av1
pub mod Vp9
pub mod Hevc
mod Examples
