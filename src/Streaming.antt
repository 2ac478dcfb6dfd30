-- ===== src/Streaming.antt =====
-- One streaming RPC as a whole: a clientStream of pkg/rpc/client.go and a serverStream of
-- pkg/rpc/server.go, joined by what the NATS connection carries from the one to the other.
pub mod Wire
pub mod Sent
pub mod Uplink
pub mod Downlink
pub mod Replied
pub mod Whole
