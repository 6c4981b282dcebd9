-- ===== src/Gsbench/Controller.antt =====
-- The closed-loop worker controller, internal/gsbench/controller.go. `Config` has the settings and the
-- size of a step, `Step` one round of the loop of `run`, `Run` the loops of `run` and RunToMinimum.
pub mod Config
pub mod Step
pub mod Run
mod Bounds
mod Progress
mod Climbing
mod Examples
