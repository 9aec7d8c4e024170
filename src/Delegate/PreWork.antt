-- ===== src/Delegate/PreWork.antt =====
-- Which requests are checked at all, and when the canonical name is looked at:
-- OnBeforeURLRequest_AdBlockTPPreWork and ProxySettingsAllowUncloaking
-- (chrome/browser/net/brave_ad_block_tp_network_delegate_helper.cc).
use chromium_adblock.Base.{
  Bool, true, false, not, ◌&&◌, ◌||◌, ◌=s=◌, Option, none, some, is_empty, if◌then◌else◌,
}
use chromium_adblock.Web.{Gurl, scheme_is_http_or_https, scheme_is_ws_or_wss}
use chromium_adblock.Delegate.Types.{RequestInfo, is_main_frame, is_invalid}

-- net::ProxyConfig::ProxyRules, as far as it is looked at; an empty list of proxies is `true`.
pub data ProxyRulesType : Type 0 where
  empty proxy_list proxy_list_per_scheme : ProxyRulesType

pub record ProxyConfig : Type 0 where
  pub type : ProxyRulesType
  pub fallback_proxies_empty : Bool
  pub proxies_for_https_empty : Bool
  pub has_pac_url : Bool

abbrev is_proxy_list : ProxyRulesType → Bool
is_proxy_list proxy_list = true
is_proxy_list _ = false

abbrev is_per_scheme : ProxyRulesType → Bool
is_per_scheme proxy_list_per_scheme = true
is_per_scheme _ = false

-- `none` is an availability other than CONFIG_VALID.
unfoldable pub proxy_settings_allow_uncloaking : Option ProxyConfig → Bool
proxy_settings_allow_uncloaking none = true
proxy_settings_allow_uncloaking (some config) =
    let single =
      is_proxy_list config.type
      || (is_per_scheme config.type && not config.fallback_proxies_empty) in
    let https = is_per_scheme config.type && not config.proxies_for_https_empty in
    if single then false else if https then false else if config.has_pac_url then false else true

-- `kBraveAdblockCnameUncloaking` is enabled, there is a browser context, and its proxies allow it.
unfoldable pub should_check_uncloaked : Bool → RequestInfo → Option ProxyConfig → Bool
unfolding proxy_settings_allow_uncloaking
should_check_uncloaked cname_feature ctx config =
    cname_feature && (ctx.has_browser_context && proxy_settings_allow_uncloaking config)

-- net::OK or net::ERR_IO_PENDING.
pub data NetResult : Type 0 where
  ok io_pending : NetResult

abbrev pub is_pending : NetResult → Bool
is_pending ok = false
is_pending io_pending = true

-- GURL::is_empty and GURL::has_host.
abbrev pub url_is_empty : Gurl → Bool
url_is_empty u = is_empty u.spec

abbrev pub has_host : Gurl → Bool
has_host u = not (is_empty u.host)

-- OnBeforeURLRequest_AdBlockTPPreWork: `io_pending` is returned after the query has been posted.
unfoldable pub pre_work : Bool → RequestInfo → NetResult
unfolding scheme_is_http_or_https scheme_is_ws_or_wss
pre_work extension_blocking ctx =
    if url_is_empty ctx.request_url
      || (url_is_empty ctx.initiator_url
          || (not (has_host ctx.initiator_url)
              || (not ctx.allow_brave_shields || is_invalid ctx.resource_type)))
    then ok
    else if not (scheme_is_http_or_https ctx.request_url)
        && not (scheme_is_ws_or_wss ctx.request_url)
    then ok
    else if ctx.initiator_url.scheme =s= "chrome-extension" && not extension_blocking
    then ok
    else if is_main_frame ctx.resource_type && not (scheme_is_ws_or_wss ctx.request_url)
    then ok
    else io_pending
