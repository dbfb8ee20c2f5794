-- ===== src/BackendFallback.antt =====
-- src/backend_fallback.cpp: which ops of a graph an accelerator runs and which the CPU, and how the
-- graph is cut into runs.
pub mod Graph
pub mod Accepts
pub mod Place
pub mod Runs
mod Tests
