-- ===== src/Settings/Runs.antt =====
-- Any messages to the settings page, with what happens to the subscriptions in between
-- (chrome/browser/ui/webui/brave_adblock_ui.cc).
use chromium_adblock.Base.{
  ℕ, String, Bool, ◌&&◌, ◌≡◌, ◌∙◌, ap, is_some, refl, Option, none, some, List, [], ◌∷◌, inl,
}
use chromium_adblock.Base.Dict.{Dict}
use chromium_adblock.Web.{Gurl}
use chromium_adblock.CustomResources.Runs.{Unique}
use chromium_adblock.Subscriptions.Info.{Value, SubscriptionInfo, subscription_dict}
use chromium_adblock.Subscriptions.Manager.{
  on_list_metadata, on_subscription_download_failure, on_subscription_downloaded, on_update_timer,
}
use chromium_adblock.Subscriptions.Providers.{Matches}
use chromium_adblock.Subscriptions.Runs.{
  has_metadata, has_downloaded, has_failed, timer_fires, apply-Matches,
}
use chromium_adblock.Settings.{
  Page, PageEvent, sends, finds_metadata, downloads_list, fails_download, updates, leaves,
  page_step, run_page_from, run_page,
}
use chromium_adblock.Settings.Noticed.{
  on_list_metadata-Noticed, on_subscription_download_failure-Noticed,
  on_subscription_downloaded-Noticed, on_update_timer-Noticed,
}
use chromium_adblock.Settings.Sound.{IsSound, IsSoundIf, put_manager-IsSound}
use chromium_adblock.Settings.Served.{all_served, page_step-is_some}
use chromium_adblock.Settings.Messages.{handle_message-IsSound}

module _ (time_to_value : ℕ → Value) (convert : Dict Value → SubscriptionInfo)
    (parse : String → Gurl) (is_string_ascii : String → Bool) {Storage : Type 0}
    (reads_enabled : (info : SubscriptionInfo)
      → (convert (subscription_dict time_to_value info)).enabled ≡ info.enabled) where
  page_step-IsSound :
      (event : PageEvent) (page : Page Storage)
      → IsSound time_to_value convert parse is_string_ascii reads_enabled page
      → IsSoundIf time_to_value convert parse is_string_ascii reads_enabled
          (page_step time_to_value convert parse is_string_ascii event page)
  unfolding page_step
  page_step-IsSound (sends message args) page sound =
      handle_message-IsSound time_to_value convert parse is_string_ascii reads_enabled message args
        page sound
  page_step-IsSound (finds_metadata url metadata) page sound =
      put_manager-IsSound time_to_value convert parse is_string_ascii reads_enabled page
        (on_list_metadata time_to_value convert page.manager url metadata) sound
        (apply-Matches time_to_value convert parse reads_enabled (has_metadata url metadata)
          page.manager sound.matches)
        (on_list_metadata-Noticed time_to_value convert page.manager url metadata)
  page_step-IsSound (downloads_list url now) page sound =
      put_manager-IsSound time_to_value convert parse is_string_ascii reads_enabled page
        (on_subscription_downloaded time_to_value convert page.manager url now) sound
        (apply-Matches time_to_value convert parse reads_enabled (has_downloaded url now)
          page.manager sound.matches)
        (on_subscription_downloaded-Noticed time_to_value convert page.manager url now)
  page_step-IsSound (fails_download url now) page sound =
      put_manager-IsSound time_to_value convert parse is_string_ascii reads_enabled page
        (on_subscription_download_failure time_to_value convert page.manager url now) sound
        (apply-Matches time_to_value convert parse reads_enabled (has_failed url now) page.manager
          sound.matches)
        (on_subscription_download_failure-Noticed time_to_value convert page.manager url now)
  page_step-IsSound (updates now) page sound =
      put_manager-IsSound time_to_value convert parse is_string_ascii reads_enabled page
        (on_update_timer time_to_value convert parse page.manager now) sound
        (apply-Matches time_to_value convert parse reads_enabled (timer_fires now) page.manager
          sound.matches)
        (on_update_timer-Noticed time_to_value convert parse page.manager now sound.matches.1)
  page_step-IsSound leaves page sound = record {
    matches = sound.matches;
    unique = sound.unique;
    current = inl refl;
  }

  run_page_from-IsSound :
      (events : List PageEvent) (page : Option (Page Storage))
      → IsSoundIf time_to_value convert parse is_string_ascii reads_enabled page
      → IsSoundIf time_to_value convert parse is_string_ascii reads_enabled
          (run_page_from time_to_value convert parse is_string_ascii events page)
  run_page_from-IsSound [] page sound = sound
  run_page_from-IsSound (event ∷ events) none sound = tt
  run_page_from-IsSound (event ∷ events) (some page) sound =
      run_page_from-IsSound events
        (page_step time_to_value convert parse is_string_ascii event page)
        (page_step-IsSound event page sound)

  run_page_from-is_some :
      (events : List PageEvent) (page : Option (Page Storage))
      → IsSoundIf time_to_value convert parse is_string_ascii reads_enabled page
      → is_some (run_page_from time_to_value convert parse is_string_ascii events page) ≡ (
          is_some page
          && all_served time_to_value convert parse reads_enabled is_string_ascii events page)
  run_page_from-is_some [] none sound = refl
  run_page_from-is_some [] (some page) sound = refl
  run_page_from-is_some (event ∷ events) none sound = refl
  run_page_from-is_some (event ∷ events) (some page) sound =
      let next = page_step time_to_value convert parse is_string_ascii event page in
      run_page_from-is_some events next (page_step-IsSound event page sound)
      ∙ ap
          (λ served.
            served
            && all_served time_to_value convert parse reads_enabled is_string_ascii events next)
          (page_step-is_some time_to_value convert parse reads_enabled is_string_ascii page
            sound.matches event)

  -- From services whose subscriptions match their filters providers and whose custom resources have
  -- no two of one name under a key, and a page that has been given no list yet, any messages, with
  -- metadata, downloads, failures and timer ticks in between, are all served exactly if each of
  -- them has the arguments that its handler reads or CHECKs for, and none sets, by a valid URL, a
  -- subscription that is not known, or disables one that is not enabled. If all are served, they come to such
  -- services again, and the list of subscriptions that the page was given last is the list of the
  -- subscriptions.
  pub run_page-IsSound :
      (events : List PageEvent) (page : Page Storage)
      → Matches time_to_value convert reads_enabled page.manager
      → Unique is_string_ascii page.provider
      → page.shown ≡ none
      → (is_some (run_page time_to_value convert parse is_string_ascii events page)
          ≡ all_served time_to_value convert parse reads_enabled is_string_ascii events (some page))
        × IsSoundIf time_to_value convert parse is_string_ascii reads_enabled
            (run_page time_to_value convert parse is_string_ascii events page)
  unfolding run_page
  run_page-IsSound events page matches unique blank =
      let sound : IsSound time_to_value convert parse is_string_ascii reads_enabled page = record {
        matches = matches;
        unique = unique;
        current = inl blank;
      } in
      (
        run_page_from-is_some events (some page) sound,
        run_page_from-IsSound events (some page) sound,
      )
