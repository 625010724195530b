-- ===== src/Channel.antt =====
-- common/secure_channel.py: the authenticated transport between sentry agents and the control center.
pub mod Crypto
pub mod Keys
pub mod Aead
pub mod Outcome
pub mod Frame
pub mod Table
pub mod OrderedSet
pub mod Receiver
pub mod Sender
mod Tests
