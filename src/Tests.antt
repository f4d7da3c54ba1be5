-- ===== src/Tests.antt =====
-- The theorems applied to small concrete data (sitter/, plugins/sitter_log/ and the other plugins).
mod Sample
mod Server
mod Worker
mod Logs
mod Certificates
mod Packages
mod Processes
mod Scripts
mod Reports
mod Machine
mod Daemons
