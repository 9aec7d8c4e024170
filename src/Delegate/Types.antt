-- ===== src/Delegate/Types.antt =====
-- The types of the blocking helper (chrome/browser/net/brave_ad_block_tp_network_delegate_helper.cc)
-- and what it sees and sets of a BraveRequestInfo (chrome/browser/net/url_context.{h,cc}).
use chromium_adblock.Base.{String, Bool, true, false, not, ◌&&◌, Option, is_empty}
use chromium_adblock.Web.{Gurl, ResourceType, main_frame, invalid}

pub data BlockedBy : Type 0 where
  not_blocked ad_blocked other_blocked : BlockedBy

abbrev pub is_ad_blocked : BlockedBy → Bool
is_ad_blocked ad_blocked = true
is_ad_blocked not_blocked = false
is_ad_blocked other_blocked = false

abbrev pub is_main_frame : ResourceType → Bool
is_main_frame main_frame = true
is_main_frame _ = false

abbrev pub is_invalid : ResourceType → Bool
is_invalid invalid = true
is_invalid _ = false

pub record EngineFlags : Type 0 where
  pub did_match_rule : Bool
  pub did_match_exception : Bool
  pub did_match_important : Bool

abbrev pub no_flags : EngineFlags
no_flags = record {
  did_match_rule = false;
  did_match_exception = false;
  did_match_important = false;
}

-- The frame token is used for the report to the developer tools only, and is left out.
pub record ShouldBlockRequestParams : Type 0 where
  pub initiator_url : Gurl
  pub request_url : Gurl
  pub resource_type : ResourceType
  pub method : String
  pub devtools_request_id : Option String

-- content::devtools_instrumentation::AdblockInfo, as this file fills it.
pub record AdblockInfo : Type 0 where
  pub request_url : Gurl
  pub checked_url : Gurl
  pub source_host : String
  pub resource_type : ResourceType
  pub blocked : Bool
  pub did_match_important_rule : Bool
  pub did_match_rule : Bool
  pub did_match_exception : Bool
  pub has_mock_data : Bool
  pub rewritten_url : Option String

pub record ShouldBlockRequestResult : Type 0 where
  pub engine_flags : EngineFlags
  pub new_url_spec : String
  pub mock_data_url : String
  pub blocked_by : BlockedBy
  -- the report that is sent to the developer tools, an effect in the source
  pub report : Option AdblockInfo

-- What the helper sees and sets of a BraveRequestInfo.
pub record RequestInfo : Type 0 where
  pub request_url : Gurl
  pub initiator_url : Gurl
  pub resource_type : ResourceType
  pub method : String
  pub devtools_request_id : Option String
  pub allow_brave_shields : Bool
  pub has_browser_context : Bool
  pub blocked_by : BlockedBy
  pub mock_data_url : String
  pub new_url_spec : String

-- BraveRequestInfo::ShouldMockRequest.
unfoldable pub should_mock_request : RequestInfo → Bool
should_mock_request ctx = is_ad_blocked ctx.blocked_by && not (is_empty ctx.mock_data_url)

abbrev pub params_of : RequestInfo → ShouldBlockRequestParams
params_of ctx = record {
  initiator_url = ctx.initiator_url;
  request_url = ctx.request_url;
  resource_type = ctx.resource_type;
  method = ctx.method;
  devtools_request_id = ctx.devtools_request_id;
}
