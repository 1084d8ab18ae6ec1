-- ===== src/Db.antt =====
-- The rows of the tables, the session of a request, and the monads of its reads and writes.
mod Rows
mod People
mod Table
mod Updates
mod Store
mod Monad
pub mod Reading
pub mod Writing
pub use People.*
pub use Rows.*
unfoldable pub use Table.*
unfoldable pub use Updates.*
unfoldable pub use Store.*
unfoldable pub use Monad.*
