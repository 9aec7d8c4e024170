-- ===== src/Delegate.antt =====
-- The network delegate helper of the blocking engine (chrome/browser/net/brave_ad_block_tp_network_delegate_helper.cc):
-- the checks before a request is looked at, the query on the task runner, the reply, and the
-- second query about the canonical name of the host. The asynchronous parts are functions from
-- what comes back to what is done next; `Flow` puts them together.
pub mod Types
pub mod Check
pub mod Reply
pub mod PreWork
pub mod Verdict
pub mod Flow
pub mod Examples
