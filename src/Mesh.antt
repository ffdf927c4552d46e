-- ===== src/Mesh.antt =====
-- internal/daemon/mesh: the frames of the probe protocol and of the TCP relay.
pub mod Probe
pub mod Relay
pub mod Paths
