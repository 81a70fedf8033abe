-- ===== src/Image.antt =====
-- Image helpers: libclm/image.c.
-- `Base64` is the coding of data URLs, `Sniff` the recognition of an image by its first bytes.
pub mod Base64
pub mod Sniff
mod Tests
