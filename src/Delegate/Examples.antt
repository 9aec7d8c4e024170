-- ===== src/Delegate/Examples.antt =====
-- The properties of the blocking helper at concrete inputs.
use chromium_adblock.Base.{String, true, false, ◌≡◌, Option, none, some, List, [], ◌∷◌}
use chromium_adblock.Web.{Gurl, script}
use chromium_adblock.Engine.{should_start_request}
use chromium_adblock.Engine.Examples.{toy, toy_same_domain}
use chromium_adblock.Wrapper.{wrapper_should_start_request}
use chromium_adblock.Wrapper.Examples.{toy_wrapper, https_url}
use chromium_adblock.Delegate.Types.{RequestInfo, not_blocked, is_ad_blocked, no_flags, params_of}
use chromium_adblock.Delegate.Check.{should_block_request_on_task_runner}
use chromium_adblock.Delegate.PreWork.{ProxyConfig, proxy_list_per_scheme, should_check_uncloaked}
use chromium_adblock.Delegate.Verdict.{should_block_request_blocks}
use chromium_adblock.Delegate.Flow.{
  World, steady, on_before_url_request, blocked_of, on_before_url_request_runs_next,
  on_before_url_request_blocks,
}

-- A script on page.test from cdn.test, which is an alias of track.test.
abbrev pub request : RequestInfo
request = record {
  request_url = https_url "cdn.test";
  initiator_url = https_url "page.test";
  resource_type = script;
  method = "GET";
  devtools_request_id = some "1";
  allow_brave_shields = true;
  has_browser_context = true;
  blocked_by = not_blocked;
  mock_data_url = "";
  new_url_spec = "";
}

abbrev replace : Gurl → String → Gurl
replace u host = https_url host

abbrev aliases : Option (List String)
aliases = some ("track.test" ∷ [])

should_block_request_blocks_example :
    is_ad_blocked
      (should_block_request_on_task_runner toy toy_same_domain https_url toy_wrapper
        (params_of request)
        no_flags
        (some (https_url "track.test"))).blocked_by
    ≡ true
unfolding should_start_request wrapper_should_start_request
should_block_request_blocks_example =
    should_block_request_blocks toy toy_same_domain https_url toy_wrapper (params_of request)
      no_flags (some (https_url "track.test"))

abbrev https_proxy : ProxyConfig
https_proxy = record {
  type = proxy_list_per_scheme;
  fallback_proxies_empty = true;
  proxies_for_https_empty = false;
  has_pac_url = false;
}

abbrev leaving : World
leaving = record (steady aliases) { alive_at_lookup = false }

on_before_url_request_runs_next_example :
    (on_before_url_request toy toy_same_domain https_url replace toy_wrapper leaving request true
      none).next_runs
    ≡ 1
on_before_url_request_runs_next_example =
    on_before_url_request_runs_next toy toy_same_domain https_url replace toy_wrapper leaving
      request true none

on_before_url_request_blocks_example :
    blocked_of
      (on_before_url_request toy toy_same_domain https_url replace toy_wrapper
        (steady aliases)
        request
        true
        none).ctx
    ≡ true
unfolding should_check_uncloaked should_block_request_on_task_runner should_start_request
    wrapper_should_start_request
on_before_url_request_blocks_example =
    on_before_url_request_blocks toy toy_same_domain https_url replace toy_wrapper request true none
      aliases
