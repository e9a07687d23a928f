-- ===== src/Tree/Knomial.antt =====
-- The k-nomial topology (src/cart/crt_tree_knomial.c): the parent of a tree rank is the rank with
-- its lowest digit that is not zero, in base `ratio`, set to zero.
pub mod Digits
pub mod Loops
pub mod Spans
