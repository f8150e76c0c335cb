-- ===== src/Tests.antt =====
-- The theorems at concrete inputs.
mod Storage
mod Access
mod Limits
mod Racing
mod Starting
mod Helpers
mod Chain
mod Uploads
mod Service
mod Settings
mod Watching
mod Keys
mod Deploying
mod Files
mod Tables
