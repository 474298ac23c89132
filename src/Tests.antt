-- ===== src/Tests.antt =====
-- The theorems at concrete inputs, and runs of the model.
mod Data
mod Rounds
mod Runs
mod Repair
mod SecondVersion
mod Cluster
mod Logger
mod Node
mod Fcm
mod FcmClient
mod Proxy
mod Start
