-- ===== src/Socket.antt =====
-- The proxying web socket (chrome/browser/net/brave_proxying_web_socket.{h,cc}).
pub mod Types
pub mod Steps
pub mod Handshake
pub mod Events
pub mod Once
pub mod Steady
pub mod Openings
pub mod Runs
pub mod Outcomes
pub mod Examples
