-- ===== src/Cancellation.antt =====
-- core/cancellation.py: cancellation shared by the threads of a run.
mod Token
mod Counts
pub mod Threads
pub mod Tests
pub use Token.{Token as CancellationToken, Step, Reach, here, then_}
unfoldable pub use Token.{register, unregister, check, fresh}
