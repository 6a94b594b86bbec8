-- ===== src/Tests.antt =====
-- Concrete runs of the model of src/control_plane: a small network and the requests that it meets.
pub mod Data
pub mod Kernel
pub mod Queue
pub mod Metering
pub mod Funnel
pub mod Servers
pub mod Chat
pub mod Dialogue
