-- ===== src/Tests.antt =====
-- The theorems at concrete inputs, with the primitives of Spirit/Reference.antt.
mod Links
mod Mailboxes
mod Streams
mod Messages
mod Operations
mod Connections
mod Creation
mod Connectors
mod Nodes
mod Ports
mod Terms
mod Patterns
mod Closings
mod Meetings
