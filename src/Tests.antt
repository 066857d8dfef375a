-- ===== src/Tests.antt =====
-- Concrete runs of the models: a world of files, and the theorems at inputs in it.
mod World
mod Data
mod Mounted
mod Examples
mod Sessions
mod Service
mod Running
mod Packages
