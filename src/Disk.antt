-- ===== src/Disk.antt =====
-- The disk library under emulation/libcommon: image geometry, images in a stream, and the drive.
-- A `size_t` is a natural number: no size of an image reaches 2^64.
pub mod Geometry
pub mod Image
pub mod Drive
pub mod Load
pub mod Fits
pub mod Layout
pub mod Sectors
pub mod Heads
mod Tests
