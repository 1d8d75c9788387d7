-- ===== src/Native.antt =====
-- source/shared/enil_native.c: a request to LINE over the native transport, from the path of the
-- gateway to LINE's servers and back. NULL arguments only give the empty result and are left out.
pub mod Services
pub mod Prepare
pub mod Answer
pub mod Post
pub mod Reason
pub mod Safety
pub mod Outgoing
pub mod Sent
mod Runs
