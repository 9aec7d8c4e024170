-- ===== src/Delegate/Verdict.antt =====
-- What one query of the engines says of a request: ShouldBlockRequestOnTaskRunner on every way
-- (chrome/browser/net/brave_ad_block_tp_network_delegate_helper.cc).
use chromium_adblock.Base.{
  String, Bool, not, ◌&&◌, ◌||◌, ◌≡◌, refl, some, true, false, Option, is_some, arith,
  if◌then◌else◌,
}
use chromium_adblock.Web.{Gurl, scheme_is_ws_or_wss, scheme_is_http_or_https}
use chromium_adblock.Engine.{EngineApi, BlockerResult}
use chromium_adblock.Wrapper.{EngineWrapper, wrapper_should_start_request}
use chromium_adblock.Delegate.Types.{is_ad_blocked, EngineFlags, ShouldBlockRequestParams}
use chromium_adblock.Base.{◌=s=◌}
use chromium_adblock.Delegate.Types.{RequestInfo, is_invalid, is_main_frame}
use chromium_adblock.Delegate.PreWork.{
  pre_work, is_pending, ok, io_pending, url_is_empty, has_host, ProxyConfig, empty, proxy_list,
  proxy_list_per_scheme, proxy_settings_allow_uncloaking,
}
use chromium_adblock.Delegate.Check.{should_block_request_on_task_runner, url_to_check, may_rewrite}

module _ {Client FilterSet Storage Policy : Type 0}
    (api : EngineApi Client FilterSet Storage Policy) (same_domain_or_host : Gurl → String → Bool)
    (parse : String → Gurl) (w : EngineWrapper Client Policy) (input : ShouldBlockRequestParams)
    (previous : EngineFlags) (canonical_url : Option Gurl) where
  abbrev answer : BlockerResult
  answer =
      wrapper_should_start_request api same_domain_or_host parse w
        (url_to_check canonical_url input.request_url) input.resource_type input.initiator_url.host
        previous.did_match_rule previous.did_match_exception previous.did_match_important

  -- A request without a valid initiator is never blocked by this query; any other is blocked exactly
  -- if an important rule matched in this or an earlier query, or a rule matched and no exception
  -- did, in this query or an earlier one.
  pub should_block_request_blocks :
      is_ad_blocked
        (should_block_request_on_task_runner api same_domain_or_host parse w input previous
          canonical_url).blocked_by
      ≡ (input.initiator_url.is_valid
          && ((previous.did_match_important || answer.important)
              || ((previous.did_match_rule || answer.matched)
                  && not (previous.did_match_exception || answer.has_exception))))
  unfolding should_block_request_on_task_runner
  should_block_request_blocks = ground arith

  -- The URL is rewritten only by the query about the request's own URL, only for GET, HEAD and
  -- OPTIONS, only to a URL that parses as valid, and then to the engine's text.
  pub should_block_request_rewrites :
      (should_block_request_on_task_runner api same_domain_or_host parse w input previous
        canonical_url).new_url_spec
      ≡ (if input.initiator_url.is_valid
            && (not (is_some canonical_url)
                && (answer.rewritten_url.has_value
                    && ((parse answer.rewritten_url.value).is_valid && may_rewrite input.method)))
          then answer.rewritten_url.value
          else "")
  unfolding should_block_request_on_task_runner
  should_block_request_rewrites = ground arith

  -- The developer tools hear of a request exactly if it has an id there, its initiator is valid,
  -- and it is blocked or some query has met an exception.
  pub should_block_request_reports :
      let result =
        should_block_request_on_task_runner api same_domain_or_host parse w input previous
          canonical_url in
      is_some result.report ≡ (
        input.initiator_url.is_valid
        && (is_some input.devtools_request_id
            && (is_ad_blocked result.blocked_by || result.engine_flags.did_match_exception)))
  unfolding should_block_request_on_task_runner
  should_block_request_reports = ground arith

-- The four early returns as one condition.
pending_ladder :
    (no_url no_initiator host shields no_type http ws extension blocking main : Bool)
    → is_pending (
        if no_url || (no_initiator || (not host || (not shields || no_type)))
        then ok
        else if not http && not ws
        then ok
        else if extension && not blocking
        then ok
        else if main && not ws
        then ok
        else io_pending)
      ≡ (not no_url
          && (not no_initiator
              && (host
                  && (shields
                      && (not no_type
                          && ((ws || (http && not main)) && (blocking || not extension)))))))
pending_ladder true _ _ _ _ http ws ext blocking main = refl
pending_ladder false true _ _ _ http ws ext blocking main = refl
pending_ladder false false false _ _ http ws ext blocking main = refl
pending_ladder false false true false _ http ws ext blocking main = refl
pending_ladder false false true true true http ws ext blocking main = refl
pending_ladder false false true true false http ws ext blocking main = ground arith

-- Exactly these requests are handed to the engines: the request and its initiator are known, the
-- initiator has a host, shields are up, the resource type is known; the scheme is HTTP or a web
-- socket; the initiator is no extension, unless extensions are to be blocked too; and it is not a
-- main frame, unless it is a web socket.
pub pre_work_pending :
    (extension_blocking : Bool) (ctx : RequestInfo)
    → is_pending (pre_work extension_blocking ctx) ≡ (
        not (url_is_empty ctx.request_url)
        && (not (url_is_empty ctx.initiator_url)
            && (has_host ctx.initiator_url
                && (ctx.allow_brave_shields
                    && (not (is_invalid ctx.resource_type)
                        && ((scheme_is_ws_or_wss ctx.request_url
                              || (scheme_is_http_or_https ctx.request_url
                                  && not (is_main_frame ctx.resource_type)))
                            && (extension_blocking
                                || not (ctx.initiator_url.scheme =s= "chrome-extension"))))))))
unfolding pre_work
pre_work_pending extension_blocking ctx =
    pending_ladder (url_is_empty ctx.request_url) (url_is_empty ctx.initiator_url)
      (has_host ctx.initiator_url) ctx.allow_brave_shields (is_invalid ctx.resource_type)
      (scheme_is_http_or_https ctx.request_url) (scheme_is_ws_or_wss ctx.request_url)
      (ctx.initiator_url.scheme =s= "chrome-extension") extension_blocking
      (is_main_frame ctx.resource_type)

-- Canonical names are looked at only through a proxy setting that leaves direct connections: no
-- single proxy, no proxy for HTTPS, no fallback proxy and no PAC script.
pub proxy_settings_allow_uncloaking_direct :
    (config : ProxyConfig)
    → proxy_settings_allow_uncloaking (some config) ≡ (
        not config.has_pac_url && (elim config.type [
          | empty ↦ true
          | proxy_list ↦ false
          | proxy_list_per_scheme ↦ config.fallback_proxies_empty && config.proxies_for_https_empty
        ]))
unfolding proxy_settings_allow_uncloaking
proxy_settings_allow_uncloaking_direct config = ground arith
