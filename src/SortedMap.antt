-- ===== src/SortedMap.antt =====
-- pkg/collection/sortedmap.go: the map over a linked list with an index of its elements (Defs), its
-- invariant and its view as an ordered association list (View), and its operations on that view.
pub mod Defs
pub mod View
pub mod Indexed
pub mod Refines
pub mod Copies
