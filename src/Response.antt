-- ===== src/Response.antt =====
-- core.hpp, "Response": `response`, its factory methods and its serialisation into a write buffer.
mod Writer
mod Defs
pub mod Wire
mod Examples
unfoldable pub use Writer.*
unfoldable pub use Defs.*
