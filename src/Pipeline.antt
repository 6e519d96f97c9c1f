-- ===== src/Pipeline.antt =====
-- task12/pipeline_bash/src/main.c: the shell with pipelines.
pub mod Descriptors
pub mod Wiring
pub mod Parse
pub mod Main
mod Tests
