-- ===== src/Tests.antt =====
-- Concrete values that the theorems are applied to, and the theorems at these.
mod JsonModel
mod JsonLaws
mod Setup
mod Program
mod Objects
mod Exchanges
mod Managers
mod Syncs
mod Connections
mod Packets
mod Sessions
mod Chats
mod Networks
mod ChatRuns
mod Consoles
