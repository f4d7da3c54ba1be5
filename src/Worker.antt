-- ===== src/Worker.antt =====
-- The worker thread of sitter/sitter_worker.cpp: the ticks and the loop (Ticks), the names of the
-- plugins to load (Names), and one run of the plugins with its data file and its email (Run).
pub mod Ticks
pub mod Run
pub mod Names
