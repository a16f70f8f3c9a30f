-- ===== src/Tests.antt =====
-- Runs of the model on concrete inputs.
mod World
mod KeyWorld
mod Keys
mod Caches
mod Settings
mod Logins
mod Data
mod Sessions
mod Streams
mod Objects
