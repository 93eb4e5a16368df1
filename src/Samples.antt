-- ===== src/Samples.antt =====
-- Tests of the models on small inputs, and the theorems applied where their hypotheses hold.
mod Models
mod Leases
mod Workflow
mod Utils
mod Adapters
mod Resources
mod Recovery
mod Runtime
mod Scheduling
mod Health
mod Storage
mod Router
mod Gateway
mod Validation
mod Events
mod Pool
mod Cooldown
mod Disk
mod Workspace
mod Streams
mod Learning
mod Testing
