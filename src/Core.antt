-- ===== src/Core.antt =====
-- What every component of api/ stands on: HTTP errors (api/core/exceptions.py) and the database
-- session that a request works in (api/core/database.py).
mod Exceptions
mod Sessions
mod Rules
mod Preservation
pub use Exceptions.*
unfoldable pub use Sessions.*
unfoldable pub use Rules.*
pub use Preservation.*
