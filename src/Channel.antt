-- ===== src/Channel.antt =====
-- src/channels.c, with check_modes of src/chanserv.c: the record of a channel, its members, its
-- modes and the mode lock.
pub mod Defs
pub mod Members
pub mod Modes
pub mod Lock
pub mod Events
pub mod Table
pub mod Samples
pub use Defs.*
