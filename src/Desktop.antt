-- ===== src/Desktop.antt =====
-- sifter/src/aa_sifter/desktop/service.py: the tasks that run in the background of the desktop, and the
-- profiles that they run under.
pub mod Record
pub mod Task
pub mod Service
