-- ===== src/Loader.antt =====
-- The proxying URL loader factory (chrome/browser/net/brave_proxying_url_loader_factory.{h,cc}).
pub mod Types
pub mod Start
pub mod Redirect
pub mod Before
pub mod Response
pub mod Events
pub mod Protocol
pub mod Refinement
pub mod Answers
pub mod Conformance
pub mod Waiting
pub mod Outcomes
pub mod Sent
pub mod Sends
pub mod Factory
pub mod Lifetime
pub mod Examples
