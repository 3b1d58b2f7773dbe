-- ===== src/Js.antt =====
-- The JavaScript values that the program reads from the network (JSON, undefined, and numbers).
mod Numbers
mod Json
mod Pattern
mod Print
mod Equality
unfoldable pub use Numbers.*
unfoldable pub use Json.*
unfoldable pub use Pattern.*
unfoldable pub use Print.{printed}
pub use Equality.{strictly_equal}
