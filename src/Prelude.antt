-- ===== src/Prelude.antt =====
-- The names that the other modules share: the libraries', passed on, and those of the children.
mod Core
mod Tests
mod Lists
mod Int
mod Fallible
mod Vector
mod Search
mod Firsts
mod Index
mod Count
mod Loop
unfoldable pub use Core.*
pub use Tests.*
unfoldable pub use Lists.*
unfoldable pub use Int.*
unfoldable pub use Fallible.*
unfoldable pub use Vector.*
unfoldable pub use Search.*
unfoldable pub use Firsts.*
unfoldable pub use Index.*
unfoldable pub use Count.*
unfoldable pub use Loop.*
