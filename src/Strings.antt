-- ===== src/Strings.antt =====
-- Go's strings as byte lists, with the functions of the packages strings, bytes and strconv that
-- the SDK calls.
mod Text
mod Split
mod Numbers
mod Digits
mod Trim
mod Separators
unfoldable pub use Text.*
unfoldable pub use Split.*
unfoldable pub use Numbers.*
pub use Trim.*
pub use Digits.*
pub use Separators.*
