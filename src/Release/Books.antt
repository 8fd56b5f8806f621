-- ===== src/Release/Books.antt =====
-- The counts that `process_release` keeps, and that `_outcome` never refuses them.
mod Recorder
mod Valid
mod Steps
mod Handler
mod Body
mod Result
pub use Recorder.*
pub use Valid.*
pub use Steps.*
pub use Handler.*
pub use Result.*
