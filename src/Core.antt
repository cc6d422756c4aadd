-- ===== src/Core.antt =====
-- ndn-svs/core.hpp and core.cpp: `class SVSyncCore`, in the modules below.
pub mod Merge
pub mod State
pub mod Start
pub mod Spelling
pub mod Environment
pub mod Timer
pub mod Feedback
pub mod Build
pub mod Handlers
pub mod Network
pub mod Refinement
pub mod Reports
pub mod Period
mod Tests
