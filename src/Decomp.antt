-- ===== src/Decomp.antt =====
-- src/planning/decomp: the grids that the planners search.
pub mod RectGrid
pub mod SquareGrid
pub mod CurvilinearGrid
pub mod DenseGrid
