-- ===== src/Encode.antt =====
-- src/encode: the byte format of the video stream.
pub mod AnnexB
