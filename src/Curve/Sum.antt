-- ===== src/Curve/Sum.antt =====
-- What `combine` keeps: the sum of two vesting curves is again a vesting curve, of at most the
-- two sizes together.
pub mod Sorting
pub mod Points
pub mod Decreasing
pub mod Shifted
pub mod Kinds
pub mod FromZero
