-- ===== src/Text.antt =====
-- Go strings: byte strings, and what the program uses of the packages strings, unicode/utf8 and
-- path/filepath of the standard library.
mod Raw
mod Runes
mod Dict
unfoldable pub use Raw.*
unfoldable pub use Runes.*
unfoldable pub use Dict.*
