-- ===== src/Setup.antt =====
-- loader.c: the set-up of addresses and of batches for threads, and the callback that counts the traffic
-- of a client.
pub mod Tracing
pub mod Statuses
pub mod Responses
pub mod Ipv6
pub mod Contexts
pub mod Addresses
pub mod Subbatches
