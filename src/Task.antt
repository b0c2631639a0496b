-- ===== src/Task.antt =====
-- The pipeline of src/task: a ventilator, workers and a sink.
pub mod Ventilator
pub mod Worker
pub mod Sink
pub mod Pipeline
mod Tests
