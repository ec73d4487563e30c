-- ===== src/Examples.antt =====
-- Concrete inputs: a model of `double`, small runs of the programs, and the theorems at them.
pub mod Numbers
pub mod Split
pub mod DaemonRuns
pub mod Daemon
pub mod DaemonTasks
pub mod Rpc
pub mod Producer
pub mod Client
pub mod Updater
pub mod Store
pub mod RedisServer
pub mod UpdaterAtomic
pub mod UpdaterMain
pub mod ProducerChosen
pub mod Consumer
pub mod Push
pub mod Services
