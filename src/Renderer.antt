-- ===== src/Renderer.antt =====
-- Cosmetic filters on a page (components/cosmetic_filters/browser/cosmetic_filters_resources.cc and
-- components/cosmetic_filters/renderer/).
pub mod Resources
pub mod Handler
pub mod Frame
pub mod Events
pub mod Kept
pub mod Queries
pub mod Faithful
pub mod Answers
pub mod Pages
pub mod Examples
