-- ===== src/Plugins/Log.antt =====
-- The log plugin: the mode language of a log definition (Mode), the definitions and their
-- configuration files (Definition) and the checks of the log files (Check).
pub mod Mode
pub mod Definition
pub mod Check
