-- ===== src/Archive.antt =====
-- What the `serialize` templates need of an archive (cereal is not in the repository): codecs for
-- the primitive types, with the behaviour that cereal documents, and the composition of members
-- that `ar & member` and `ar(a, b, c)` stand for.
mod Defs
pub mod LittleEndian
unfoldable pub use Defs.*
