-- ===== src/Package.antt =====
-- pkg/package: the manifest, the package and the minimal description, with their validation.
pub mod Manifest
pub mod WellFormed
pub mod Description
pub mod Loader
