-- ===== src/Maps.antt =====
-- The collections of the standard library: hash maps and sets as association lists and lists,
-- B-tree maps and sets as lists in the order of their keys.
mod Laws
mod Sets
unfoldable pub use Laws.*
unfoldable pub use Sets.*
