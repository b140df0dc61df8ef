-- ===== src/Asset.antt =====
-- asset/: file paths, directories, images and models.
pub mod FilePath
pub mod Image
pub mod Obj
pub mod Mesh
pub mod Directory
mod Tests
