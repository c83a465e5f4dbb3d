-- ===== src/Images.antt =====
-- The image toolkit, modules/image-toolkit/imagekit: digests, manifests and the store of images.
pub mod Digest
pub mod Store
pub mod Transfer
mod Examples
