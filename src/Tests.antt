-- ===== src/Tests.antt =====
-- The theorems at concrete inputs: a resource whose task ends after some polls, files, paths,
-- filters and environments.
mod World
mod Runs
mod Felis
mod Files
mod Choices
mod Cloud
mod Computers
mod Systems
mod Job
mod Locals
mod Pasqals
mod Providers
mod Services
mod Https
mod Sockets
mod Inputs
mod Bridges
mod Stops
