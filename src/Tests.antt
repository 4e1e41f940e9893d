-- ===== src/Tests.antt =====
-- Concrete instances of what the model takes as parameters, and the theorems at concrete inputs.
mod Store
mod Lifetimes
mod Netlink
mod Errors
mod Waiting
mod Tool
mod Words
mod Attributes
mod Iteration
mod Families
mod Commands
mod AddressCommands
mod Events
mod Lines
mod Hops
mod RouteValues
mod SocketLife
mod Watching
mod Puts
mod Managers
mod Requests
mod Loops
mod Rounds
