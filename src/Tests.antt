-- ===== src/Tests.antt =====
-- Runs of the modelled services against small concrete databases and servers.
mod Apart
mod Queued
mod Searched
mod Decided
mod Instances
mod Seeded
mod World
mod Catalogues
mod Dns
mod Requests
mod Access
mod Origins
mod Accounts
mod Seen
mod Dashboard
mod Clusters
mod Codes
