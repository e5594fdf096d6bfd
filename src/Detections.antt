-- ===== src/Detections.antt =====
-- internal/detections: the runs of attack scenarios.
pub mod Scenario
pub mod Steps
pub mod Runs
mod Samples
