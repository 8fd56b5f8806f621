-- ===== src/Acquire.antt =====
-- acquisition.py of the application, and acquisition/streaming.py of the adapters: one artifact is
-- streamed into a sink, under a policy that bounds what is contacted and how much is read.
pub mod Characters
pub mod Contract
pub mod Headers
pub mod Stream
pub mod Drain
pub mod Attempt
pub mod Calls
pub mod Bodies
pub mod Drains
pub mod Rounds
pub mod Limits
pub mod Permitted
pub mod Whole
pub mod Stripping
pub mod Sanitized
pub mod Results
mod Tests
