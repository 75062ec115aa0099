-- ===== src/Net.antt =====
-- src/net: the connection, its framing and messages, discovery, USB, the network policy.
pub mod Connection
pub mod UsbMux
pub mod NetworkSafety
pub mod Discovery
pub mod Protocol
