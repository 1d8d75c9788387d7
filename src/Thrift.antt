-- ===== src/Thrift.antt =====
-- source/shared/enil_thrift.c: the Compact Thrift writer and reader.
pub mod Wire
pub mod RoundTrip
pub mod Schema
pub mod Write
pub mod Read
pub mod Message
pub mod ReadParts
pub mod ReadSafety
mod Runs
