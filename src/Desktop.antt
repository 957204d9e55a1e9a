-- ===== src/Desktop.antt =====
-- src/foampilot/desktop: what the desktop program reads of a running job.
pub mod Cursors
