-- ===== src/Tasks.antt =====
-- sifter/src/aa_sifter/tasks: decomposed work as a graph of tasks, and its execution.
pub mod Task
pub mod Graph
pub mod Executor
