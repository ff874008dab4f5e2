-- ===== src/Tests.antt =====
-- Runs of the development's theorems and definitions on concrete inputs, by component.
mod Windows
mod Limits
mod Settings
mod States
mod Named
mod Breakers
mod Brisk
mod Soundness
mod Calls
mod Sessions
mod Clocks
