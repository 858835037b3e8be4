-- ===== src/Run.antt =====
-- run.go: `runWork`, which runs one work item from its packages to its terminal reply.
-- Host has the environment and what is recorded of a work; Job the work's own goroutines; Packages,
-- Hook, Plaklet and Work the steps of `runWork`. Milestones, Steps, Spawn and Outcome are about what a
-- work comes to, Calm and Last about its end.
pub mod Host
pub mod Job
pub mod Packages
pub mod Hook
pub mod Plaklet
pub mod Work
pub mod Milestones
pub mod Steps
pub mod Spawn
pub mod Outcome
pub mod Calm
pub mod Last
