-- ===== src/Run/Starting.antt =====
-- runtime/run_monitor.py: `start` on the files of a run that was asked to stop before.
