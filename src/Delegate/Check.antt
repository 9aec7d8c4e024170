-- ===== src/Delegate/Check.antt =====
-- ShouldBlockRequestOnTaskRunner (chrome/browser/net/brave_ad_block_tp_network_delegate_helper.cc).
use chromium_adblock.Base.{
  String, Bool, not, ◌&&◌, ◌||◌, ◌=s=◌, Option, none, some, is_some, is_empty, if◌then◌else◌,
}
use chromium_adblock.Web.{Gurl}
use chromium_adblock.Engine.{EngineApi, BlockerResult}
use chromium_adblock.Wrapper.{EngineWrapper, wrapper_should_start_request}
use chromium_adblock.Delegate.Types.{
  not_blocked, ad_blocked, EngineFlags, ShouldBlockRequestParams, ShouldBlockRequestResult,
}

abbrev pub may_rewrite : String → Bool
may_rewrite method = method =s= "GET" || (method =s= "HEAD" || method =s= "OPTIONS")

abbrev add_flags : EngineFlags → BlockerResult → EngineFlags
add_flags f r = record {
  did_match_rule = f.did_match_rule || r.matched;
  did_match_important = f.did_match_important || r.important;
  did_match_exception = f.did_match_exception || r.has_exception;
}

-- The verdict over all flags.
abbrev pub flags_block : EngineFlags → Bool
flags_block f = f.did_match_important || (f.did_match_rule && not f.did_match_exception)

abbrev pub url_to_check : Option Gurl → Gurl → Gurl
url_to_check none request_url = request_url
url_to_check (some canonical_url) request_url = canonical_url

module _ {Client FilterSet Storage Policy : Type 0}
    (api : EngineApi Client FilterSet Storage Policy) (same_domain_or_host : Gurl → String → Bool)
    (parse : String → Gurl) where
  -- The part after the engine's answer.
  unfoldable pub judge :
      ShouldBlockRequestParams
      → EngineFlags
      → Option Gurl
      → BlockerResult
      → ShouldBlockRequestResult
  judge input previous canonical_url r =
      let has_valid_rewritten_url =
        not (is_some canonical_url)
        && (r.rewritten_url.has_value
            && ((parse r.rewritten_url.value).is_valid && may_rewrite input.method)) in
      let flags = add_flags previous r in
      let new_url_spec = if has_valid_rewritten_url then r.rewritten_url.value else "" in
      record {
        engine_flags = flags;
        new_url_spec = new_url_spec;
        mock_data_url = r.redirect.value;
        blocked_by = if flags_block flags then ad_blocked else not_blocked;
        report =
            if is_some input.devtools_request_id && (flags_block flags || flags.did_match_exception)
            then some (record {
              request_url = input.request_url;
              checked_url = url_to_check canonical_url input.request_url;
              source_host = input.initiator_url.host;
              resource_type = input.resource_type;
              blocked = flags_block flags;
              did_match_important_rule = flags.did_match_important;
              did_match_rule = flags.did_match_rule;
              did_match_exception = flags.did_match_exception;
              has_mock_data = not (is_empty r.redirect.value);
              rewritten_url = if has_valid_rewritten_url then some new_url_spec else none;
            })
            else none;
      }

  unfoldable pub should_block_request_on_task_runner :
      EngineWrapper Client Policy
      → ShouldBlockRequestParams
      → EngineFlags
      → Option Gurl
      → ShouldBlockRequestResult
  unfolding judge
  should_block_request_on_task_runner w input previous canonical_url =
      if not input.initiator_url.is_valid
      then record {
        engine_flags = previous;
        new_url_spec = "";
        mock_data_url = "";
        blocked_by = not_blocked;
        report = none;
      }
      else judge input previous canonical_url (
          wrapper_should_start_request api same_domain_or_host parse w
            (url_to_check canonical_url input.request_url) input.resource_type
            input.initiator_url.host previous.did_match_rule previous.did_match_exception
            previous.did_match_important)
