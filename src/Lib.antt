-- ===== src/Lib.antt =====
-- sitter: the daemon that watches a server. A timer ticks on the main thread; a worker thread takes
-- the ticks, runs every plugin on a new JSON document, saves the document and emails the errors that
-- the plugins reported. The main class caches settings that the administrator can change while it runs.
--
-- The parts and the files that model them, with paths from the root of the repository:
--   Env            the libraries that the daemon calls (advgetopt), as functions that a theorem is
--                  about for every choice of them
--   Json           the document of a run, as the list of the calls made on it
--   Settings       the cached fields of `server` in sitter/sitter.h; Settings/Statistics and
--                  Settings/Priorities are the getters of sitter/sitter.cpp, Settings/Cache is `clear_cache`
--   Report         `clear_errors`, `append_error` and `output_process` of sitter/sitter.cpp, with the
--                  count and the maximum priority that they keep; Report/Adds says which errors an action adds
--   Action         a plugin's calls: the report is passed along, and an exception ends the action
--   Server         `get_server_parameter` and `get_cache_path` of sitter/sitter.cpp
--   Worker/Ticks   `tick`, `wakeup`, `wait_next_tick` and `loop` of sitter/sitter_worker.cpp, with the
--                  events of the main thread: the timer's tick and the two calls of `server::stop`
--   Worker/Run     `run_plugins` and `report_error` of sitter/sitter_worker.cpp
--   Worker/Names   the names of `load_plugins` of sitter/sitter_worker.cpp
--   Daemon         `run`, `stop` and the other functions of sitter/sitter.cpp that the event loop calls,
--                  with sitter/messenger.cpp, sitter/tick_timer.cpp, sitter/interrupt.cpp and
--                  sitter/worker_done.cpp; Connection is the link to the communicator daemon
--   Rusage         `record_usage` of sitter/sitter.cpp
--   SysStats       sitter/sys_stats.h and sitter/sys_stats.cpp
--   Meminfo        sitter/meminfo.h and sitter/meminfo.cpp; Meminfo/Fields has the reference for its loop
--   Double         the operations on `double` as an interface; Double/Laws has what is relied on of them
--   Plugins/Log    plugins/sitter_log: Mode is the mode language of definition.cpp, Definition its
--                  `load_config` and `load`, Check is log.cpp
--   Plugins/Certificate  plugins/sitter_certificate/certificate.cpp
--   Plugins/Packages  plugins/sitter_packages/packages.cpp: the definitions; Status is the cache of the
--                  statuses and its file, Watch the checks
--   Plugins/Processes  plugins/sitter_processes/processes.cpp: the class of a definition and the services;
--                  Definitions loads the definitions, which Registered describes, Maintenance is
--                  `is_in_maintenance`, Watch the checks, and Watch/Meaning says which process a definition fits
--   Plugins/Scripts  plugins/sitter_scripts/scripts.cpp; Reports says what is reported, Logs what is kept
--   Plugins/Flags, Plugins/Apt  plugins/sitter_flags/flags.cpp and plugins/sitter_apt/apt.cpp
--   Plugins/CacheFile  the file in the cache directory by which the cpu and the reboot plugin remember
--                  since when something lasts; Since has what it stands for, Lost the directory that is cleared
--   Plugins/Cpu, Plugins/Reboot, Plugins/Memory  plugins/sitter_cpu/cpu.cpp,
--                  plugins/sitter_reboot/reboot.cpp and plugins/sitter_memory/memory.cpp
--   Plugins/Disk   plugins/sitter_disk/disk.cpp; Alarm is `statvfs_try`
--   Plugins/Network  plugins/sitter_network/network.cpp and plugins/sitter_firewall/firewall.cpp
--   FindProcess    tools/find_process.cpp; FindProcess/Matching says when a process matches
--   StdMap         `std::map` and `std::set` with text keys
--   Base           names, text, integers and results that all of them share
--   Tests          the theorems at small concrete data
--
-- A getter takes the settings and answers with the settings after the call. A C++ exception is an
-- `err`; `err out_of_bounds` is a vector read past its end, which C++ leaves undefined. `run_plugins`
-- takes the plugins' signal as a function; a plugin's `on_process_watch` is an action on the
-- report, so its results add to the counters that `report_error` reads.
--
-- Bounds: signed 64-bit values are unbounded integers, since none of the code modelled comes near
-- their limits but by absurd options; sizes of files are taken modulo 2 ^ 64 where the source casts
-- or doubles them, and the priority of a package and the digits of a log's mode keep the low 32 bits, as
-- an `int` does. Numbers
-- are printed with fuel for twenty digits, as many as 64 bits need. The loop over the lines of the
-- package cache has fuel for one turn more than the file has characters, which is enough since each
-- turn but the last takes one away. Every other recursion is structural; the worker's endless loop
-- is a step for each pass.
--
-- Not modelled: what is logged besides its severity and what a tool prints; the event loop and the messages
-- of eventdispatcher, and the loading of the plugins, which are libraries; the entry point
-- daemon/sitter.cpp, which constructs the server and runs it; and sitter/version.cpp, which holds constants.
pub mod Action
pub mod Base
pub mod Connection
pub mod Daemon
pub mod Double
pub mod Env
pub mod FindProcess
pub mod Json
pub mod Meminfo
pub mod Plugins
pub mod Report
pub mod Rusage
pub mod Server
pub mod Settings
pub mod StdMap
pub mod SysStats
pub mod Tests
pub mod Worker
