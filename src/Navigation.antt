-- ===== src/Navigation.antt =====
-- How a navigation goal is carried out: the engine that ticks the behaviour tree, the action server that
-- runs it for a goal, the navigator that prepares the goal, and the muxer between the navigators.
pub mod Muxer
pub mod Engine
pub mod Errors
pub mod Session
pub mod ToPose
pub mod ThroughPoses
pub mod BtServer
mod Examples
