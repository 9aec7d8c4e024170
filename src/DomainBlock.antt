-- ===== src/DomainBlock.antt =====
-- Blocking of whole domains (components/brave_shields/content/browser/): the navigation throttle
-- domain_block_navigation_throttle.cc, the interstitial's domain_block_controller_client.cc with
-- the tab's domain_block_tab_storage.{h,cc}, and the user's filters of
-- ad_block_custom_filters_provider.cc. The page itself and the metrics are left out.
pub mod Navigation
pub mod Examples
use Prim.Native.String.{◌++◌ as concat}
use chromium_adblock.Base.{
  ℕ, suc, String, Bool, true, false, not, ◌&&◌, ◌||◌, Option, none, some, is_empty, List,
  if◌then◌else◌,
}
use chromium_adblock.Web.{Gurl, main_frame}
use chromium_adblock.Engine.{EngineApi, BlockerResult}
use chromium_adblock.Wrapper.{EngineWrapper, wrapper_should_start_request}
use chromium_adblock.Delegate.Types.{AdblockInfo}

pub data DomainBlockingType : Type 0 where
  none_type aggressive : DomainBlockingType

-- GetDomainBlockingType; `enabled` is the feature kBraveDomainBlock.
unfoldable pub get_domain_blocking_type : Bool → DomainBlockingType
get_domain_blocking_type enabled = if not enabled then none_type else aggressive

-- MaybeCreateAndAdd: whether a throttle is added to a navigation.
unfoldable pub maybe_create_and_add : Bool → Bool → Bool → Bool → Bool
maybe_create_and_add has_service has_provider enabled in_primary_main_frame =
    if not has_service || not has_provider
    then false
    else if not enabled
    then false
    else if not in_primary_main_frame
    then false
    else true

-- A tab, with the flag of its DomainBlockTabStorage once it has one.
pub record Tab : Type 0 where
  pub is_proceeding : Option Bool

abbrev value_or_false : Option Bool → Bool
value_or_false none = false
value_or_false (some b) = b

pub data ThrottleAction : Type 0 where
  proceeds defers : ThrottleAction

-- WillStartRequest, and WillRedirectRequest, which is the same.
unfoldable pub will_start_request : Bool → Tab → Tab × ThrottleAction
unfolding get_domain_blocking_type
will_start_request enabled tab = elim (get_domain_blocking_type enabled) [
  | none_type ↦ (tab, proceeds)
  | aggressive ↦
      let stored = record tab { is_proceeding = some (value_or_false tab.is_proceeding) } in
      if value_or_false tab.is_proceeding then (stored, proceeds) else (stored, defers)
]

-- WillProcessResponse.
abbrev clear_proceeding : Option Bool → Option Bool
clear_proceeding none = none
clear_proceeding (some b) = some false

unfoldable pub will_process_response : Tab → Tab
will_process_response tab = record tab { is_proceeding = clear_proceeding tab.is_proceeding }

pub record BlockResult : Type 0 where
  pub should_block : Bool
  pub new_url : String
  pub info : Option AdblockInfo

-- How a deferred navigation goes on.
pub data NavigationEnd : Type 0 where
  resumes shows_interstitial not_reached : NavigationEnd
  restarts : Gurl → NavigationEnd

abbrev rewritten : BlockerResult → String
rewritten r = if r.rewritten_url.has_value then r.rewritten_url.value else ""

abbrev info_of : Gurl → BlockerResult → Bool → AdblockInfo
info_of url r blocked = record {
  request_url = url;
  checked_url = url;
  source_host = url.host;
  resource_type = main_frame;
  blocked = blocked;
  did_match_important_rule = r.important;
  did_match_rule = r.matched;
  did_match_exception = r.has_exception;
  has_mock_data = false;
  rewritten_url = if not (is_empty (rewritten r)) then some (rewritten r) else none;
}

module _ {Client FilterSet Storage Policy : Type 0}
    (api : EngineApi Client FilterSet Storage Policy) (same_domain_or_host : Gurl → String → Bool)
    (parse : String → Gurl) (w : EngineWrapper Client Policy) where
  unfoldable pub should_block_domain_on_task_runner : Gurl → BlockResult
  should_block_domain_on_task_runner url =
      let result =
        wrapper_should_start_request api same_domain_or_host parse w url main_frame url.host false
          false false in
      let should_block = result.important || (result.matched && not result.has_exception) in
      record {
        should_block = should_block;
        new_url = rewritten result;
        info =
            if should_block || result.has_exception
            then some (info_of url result should_block)
            else none;
      }

  abbrev interstitial_for : DomainBlockingType → NavigationEnd
  interstitial_for aggressive = shows_interstitial
  interstitial_for none_type = not_reached

  -- OnShouldBlockDomain, with the report to the developer tools.
  unfoldable pub on_should_block_domain :
      DomainBlockingType → BlockResult → NavigationEnd × Option AdblockInfo
  on_should_block_domain type r = (
    (if not r.should_block && not (parse r.new_url).is_valid
        then resumes
        else if (parse r.new_url).is_valid
        then restarts (parse r.new_url)
        else interstitial_for type),
    if r.should_block then r.info else none,
  )

-- AdBlockCustomFiltersProvider: the preference, missing without a local state, and how often its
-- observers were told of a change.
pub record CustomFilters : Type 0 where
  pub local_state : Option String
  pub changes : ℕ

abbrev pub text_of : Option String → String
text_of none = ""
text_of (some s) = s

unfoldable pub get_custom_filters : CustomFilters → String
get_custom_filters f = text_of f.local_state

abbrev pub update_state : CustomFilters → Option String → String → CustomFilters × Bool
update_state f none text = (f, false)
update_state f (some old) text =
    (record f { local_state = some text; changes = suc f.changes }, true)

unfoldable pub update_custom_filters : CustomFilters → String → CustomFilters × Bool
update_custom_filters f text = update_state f f.local_state text

unfoldable pub add_user_cosmetic_filter : CustomFilters → String → CustomFilters
unfolding get_custom_filters update_custom_filters
add_user_cosmetic_filter f filter =
    (update_custom_filters f (concat (get_custom_filters f) (concat "\n" filter))).0

unfoldable pub create_site_exemption : CustomFilters → String → CustomFilters
unfolding get_custom_filters update_custom_filters
create_site_exemption f host =
    (update_custom_filters f (
      concat (get_custom_filters f)
        (concat "\n" (concat "@@||" (concat host "^$first-party\n"))))).0

-- DomainBlockControllerClient.
pub record ControllerClient : Type 0 where
  pub request_url : Gurl
  pub dont_warn_again : Bool

unfoldable pub set_dont_warn_again : ControllerClient → Bool → ControllerClient
set_dont_warn_again c value = record c { dont_warn_again = value }

-- Proceed, up to the reload of the page.
unfoldable pub proceed : ControllerClient → Tab → CustomFilters → Tab × CustomFilters
unfolding create_site_exemption
proceed c tab f = (
  record tab { is_proceeding = some true },
  if c.dont_warn_again then create_site_exemption f c.request_url.host else f,
)
