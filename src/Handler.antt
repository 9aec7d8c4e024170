-- ===== src/Handler.antt =====
-- BraveRequestHandler (chrome/browser/net/brave_request_handler.{h,cc}): the
-- chains of callbacks that a request goes through on its way to the network.
pub mod Types
pub mod Loop
pub mod Events
pub mod Chain
pub mod Outcomes
pub mod Examples
