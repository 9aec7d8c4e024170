-- ===== src/Subscriptions.antt =====
-- Filter list subscriptions: AdBlockSubscriptionServiceManager (components/brave_shields/content/
-- browser/ad_block_subscription_service_manager.{h,cc}).
pub mod Info
pub mod Fields
pub mod Manager
pub mod Providers
pub mod Timer
pub mod Runs
pub mod Examples
