-- ===== src/Core.antt =====
-- netsim_core (src/apps/netsim_core): the threads between the sound card and the processors.
pub mod Audio
pub mod CircularBuffer
pub mod Detector
pub mod Logger
pub mod Jack
pub mod Network
