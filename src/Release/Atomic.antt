-- ===== src/Release/Atomic.antt =====
-- What a stage that keeps the contract of `ReleaseStage` shows after the calls of a run, and that a
-- release becomes visible whole or not at all.
mod Store
mod Rows
mod Body
mod Result
unfoldable pub use Store.*
pub use Rows.*
pub use Body.*
pub use Result.*
