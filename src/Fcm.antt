-- ===== src/Fcm.antt =====
-- pkg/fcm: the clusters that are run for tests, and the server that manages them.
pub mod World
pub mod Cluster
pub mod Options
pub mod Manager
pub mod Api
pub mod Server
pub mod Steps
pub mod Adding
pub mod Occurrences
pub mod Accounts
pub mod Removing
pub mod Filing
pub mod Filed
pub mod Removed
pub mod Health
pub mod Discovery
pub mod Verdicts
pub mod Rounds
pub mod Sized
pub mod Stranded
pub mod Creating
pub mod Missing
pub mod Wire
pub mod Client
pub mod Routes
pub mod Rows
pub mod Decoding
pub mod Routing
pub mod Answers
pub mod Transparent
pub mod Proxy
pub mod Forwarded
pub mod Cut
pub mod Proxied
pub mod Faults
pub mod Start
pub mod Started
