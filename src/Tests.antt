-- ===== src/Tests.antt =====
-- Concrete runs, and the theorems at inputs that meet their hypotheses.
mod Stats
mod DeadLettering
mod Clock
mod Retry
mod Listener
mod Backend
mod Client
mod Session
mod AsyncListener
mod AsyncSender
mod Settlement
mod Pool
mod Adapters
mod Publishing
mod Coroutines
mod LogLines
