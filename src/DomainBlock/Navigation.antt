-- ===== src/DomainBlock/Navigation.antt =====
-- What becomes of a navigation of the main frame (components/brave_shields/content/browser/
-- domain_block_navigation_throttle.cc).
use Prim.Native.String.{◌++◌ as concat}
use chromium_adblock.Base.{
  String, Bool, true, false, not, ◌&&◌, ◌||◌, Option, none, some, is_some, Option-cases, ◌⊎◌, inl,
  inr, List, [], ◌∷◌, ◌≡◌, refl, arith, if◌then◌else◌,
}
use chromium_adblock.Web.{Gurl, main_frame}
use chromium_adblock.Engine.{EngineApi}
use chromium_adblock.Wrapper.{EngineWrapper, wrapper_should_start_request}
use chromium_adblock.Wrapper.Requests.{is_blocked}
use chromium_adblock.Delegate.Types.{AdblockInfo}
use chromium_adblock.DomainBlock.{
  get_custom_filters, create_site_exemption, update_custom_filters, Tab, ThrottleAction, proceeds,
  defers, value_or_false, will_start_request, will_process_response, NavigationEnd, resumes,
  shows_interstitial, restarts, rewritten, should_block_domain_on_task_runner,
  on_should_block_domain, get_domain_blocking_type, ControllerClient, CustomFilters, proceed,
}

module _ {Client FilterSet Storage Policy : Type 0}
    (api : EngineApi Client FilterSet Storage Policy) (same_domain_or_host : Gurl → String → Bool)
    (parse : String → Gurl) (w : EngineWrapper Client Policy) where
  abbrev go_on : Bool → Gurl → Tab × ThrottleAction → NavigationEnd × Option AdblockInfo
  go_on enabled url (tab, proceeds) = (resumes, none)
  go_on enabled url (tab, defers) =
      on_should_block_domain api same_domain_or_host parse w (get_domain_blocking_type enabled)
        (should_block_domain_on_task_runner api same_domain_or_host parse w url)

  -- A navigation under the throttle, from its start to the reply of the engines.
  unfoldable pub navigate : Bool → Tab → Gurl → NavigationEnd × Option AdblockInfo
  navigate enabled tab url = go_on enabled url (will_start_request enabled tab)

  -- A navigation goes on at once if domain blocking is off or the tab's user has just chosen to
  -- proceed. Otherwise it restarts at the rewritten URL if the engines give one that is valid, or
  -- else is replaced by the interstitial exactly if they block it, and goes on if not. The
  -- developer tools are told exactly of blocked domains, restarted ones included.
  pub navigate_outcome :
      (enabled : Bool) (tab : Tab) (url : Gurl)
      → let result =
          wrapper_should_start_request api same_domain_or_host parse w url main_frame url.host false
            false false in
        let other = parse (rewritten result) in
        ((navigate enabled tab url).0 ≡ (
          if not enabled || value_or_false tab.is_proceeding
          then resumes
          else if other.is_valid
          then restarts other
          else if is_blocked result
          then shows_interstitial
          else resumes))
        × (is_some (navigate enabled tab url).1
            ≡ (enabled && (not (value_or_false tab.is_proceeding) && is_blocked result)))
  unfolding navigate will_start_request should_block_domain_on_task_runner on_should_block_domain
  navigate_outcome false tab url = (refl, refl)
  navigate_outcome true tab url = (ground arith, ground arith)

  abbrev resumes_at : NavigationEnd → Bool
  resumes_at resumes = true
  resumes_at _ = false

  -- Navigations that get no response, one after the other in a tab.
  abbrev pub all_resume : Bool → Tab → List Gurl → Bool
  all_resume enabled tab [] = true
  all_resume enabled tab (url ∷ urls) =
      resumes_at (navigate enabled tab url).0
      && all_resume enabled (will_start_request enabled tab).0 urls

  exempt_resume :
      (enabled : Bool) (urls : List Gurl)
      → all_resume enabled (record { is_proceeding = some true }) urls ≡ true
  unfolding navigate will_start_request
  exempt_resume enabled [] = refl
  exempt_resume true (url ∷ urls) = exempt_resume true urls
  exempt_resume false (url ∷ urls) = exempt_resume false urls

  filters_after :
      (c : ControllerClient) (tab : Tab) (f : CustomFilters)
      → (f.local_state ≡ none) ⊎ ((text : String) × (f.local_state ≡ some text))
      → get_custom_filters (proceed c tab f).1 ≡ (
          if c.dont_warn_again && is_some f.local_state
          then concat
              (get_custom_filters f)
              (concat "\n" (concat "@@||" (concat c.request_url.host "^$first-party\n")))
          else get_custom_filters f)
  unfolding proceed create_site_exemption update_custom_filters get_custom_filters
  filters_after c tab f (inl e) = ground arith
  filters_after c tab f (inr (text, e)) = ground arith

  -- After the user has chosen to proceed no navigation of the tab is stopped, to whatever URL, until
  -- a response has come; from then on they are checked again. The user's filters are extended by an
  -- exemption of the blocked host exactly if asked for and there is a local state.
  pub proceed_outcome :
      (enabled : Bool) (c : ControllerClient) (tab : Tab) (f : CustomFilters) (urls : List Gurl)
      → (all_resume enabled (proceed c tab f).0 urls ≡ true)
        × (will_start_request true (will_process_response (proceed c tab f).0)
            ≡ (record { is_proceeding = some false }, defers))
        × (get_custom_filters (proceed c tab f).1 ≡ (
            if c.dont_warn_again && is_some f.local_state
            then concat
                (get_custom_filters f)
                (concat "\n" (concat "@@||" (concat c.request_url.host "^$first-party\n")))
            else get_custom_filters f))
  unfolding proceed will_start_request will_process_response
  proceed_outcome enabled c tab f urls =
      (exempt_resume enabled urls, refl, filters_after c tab f (Option-cases f.local_state))
