-- ===== src/Sampling.antt =====
-- src/planning/sampling: planners that grow a tree from samples of the space.
pub mod Tree
pub mod Rrt
pub mod MotionTree
pub mod RrtStar
pub mod Rrg
pub mod RealVector
