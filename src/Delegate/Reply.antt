-- ===== src/Delegate/Reply.antt =====
-- What happens on the UI thread when an answer is back: OnShouldBlockRequestResult, the lookup of
-- the canonical name and UseCnameResult (chrome/browser/net/brave_ad_block_tp_network_delegate_helper.cc).
use chromium_adblock.Base.{
  String, Bool, not, ◌&&◌, ◌=s=◌, Option, none, some, is_empty, List, [], ◌∷◌, if◌then◌else◌,
}
use chromium_adblock.Web.{Gurl}
use chromium_adblock.Delegate.Types.{
  is_ad_blocked, EngineFlags, RequestInfo, ShouldBlockRequestResult,
}

abbrev store_result : RequestInfo → ShouldBlockRequestResult → RequestInfo
store_result ctx result = record ctx {
  blocked_by = result.blocked_by;
  mock_data_url = result.mock_data_url;
  new_url_spec = if is_empty result.new_url_spec then ctx.new_url_spec else result.new_url_spec;
}

-- What happens after a reply on the UI thread.
pub data Next : Type 0 where
  -- `next_callback.Run()`
  run_next : Next
  -- a lookup of the canonical name, with the flags found so far
  resolve_cname : EngineFlags → Next
  -- a second query, about this URL
  query_engine : EngineFlags → Gurl → Next

-- A context that is gone is `none`.
unfoldable pub on_should_block_request_result :
    Bool → Option RequestInfo → ShouldBlockRequestResult → Option RequestInfo × Next
on_should_block_request_result then_check_uncloaked none result = (none, run_next)
on_should_block_request_result then_check_uncloaked (some ctx) result = (
  some (store_result ctx result),
  if not (is_ad_blocked result.blocked_by) && then_check_uncloaked
      then resolve_cname result.engine_flags
      else run_next,
)

-- `dns_aliases.size() >= 1 ? dns_aliases.front() : EmptyString()`.
unfoldable pub get_canonical_name : List String → String
get_canonical_name [] = ""
get_canonical_name (alias ∷ aliases) = alias

-- AdblockCnameResolveHostClient::OnComplete: a lookup that failed is `none`.
unfoldable pub on_complete : Option (List String) → Option String
unfolding get_canonical_name
on_complete none = none
on_complete (some dns_aliases) = some (get_canonical_name dns_aliases)

-- `replace_host u h` is GURL::ReplaceComponents with the host alone.
unfoldable pub use_cname_result :
    (Gurl → String → Gurl) → Option RequestInfo → EngineFlags → Option String → Next
use_cname_result replace_host none previous cname = run_next
use_cname_result replace_host (some ctx) previous none = run_next
use_cname_result replace_host (some ctx) previous (some cname) =
    if not (ctx.request_url.host =s= cname) && not (is_empty cname)
    then query_engine previous (replace_host ctx.request_url cname)
    else run_next
