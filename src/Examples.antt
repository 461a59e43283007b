-- ===== src/Examples.antt =====
-- The theorems at concrete inputs, and tests that run the definitions.
mod Tables
mod Stores
mod Sessions
mod Requests
mod Servers
mod Viewers
mod Shell
mod Pages
mod Entry
mod Bulks
mod Runs
