-- ===== src/Tests.antt =====
-- Concrete inputs, on which the theorems of the other modules are applied.
mod Client
mod Codecs
mod Server
mod Routes
mod Cluster
mod Apiserver
mod Edges
mod Servers
mod Tunnels
mod Storages
mod Start
mod Reports
mod Ticks
mod Syncers
mod NewNamespace
mod EdgeNodes
mod Parents
mod Shims
mod Certs
mod Hubs
mod Senders
