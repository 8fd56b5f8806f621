-- ===== src/Bronze.antt =====
-- bronze.py of the application and objectstore/s3.py of the adapters: the manifest of an acquired
-- artifact, where it is recorded, and how a repeated release is judged.
pub mod Keys
pub mod Manifest
pub mod Store
pub mod Reads
pub mod Sink
pub mod Parts
pub mod Copies
pub mod Copied
pub mod Published
pub mod Open
pub mod Copying
pub mod Cleared
pub mod Immutable
pub mod Classified
mod Tests
