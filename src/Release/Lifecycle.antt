-- ===== src/Release/Lifecycle.antt =====
-- The order in which `process_release` calls the reader and the stage.
mod Monitor
mod Rows
mod Body
mod Ends
mod Result
unfoldable pub use Monitor.*
pub use Rows.*
pub use Result.*
