-- ===== src/Subscriptions/Runs.antt =====
-- Subscriptions over many operations (components/brave_shields/content/browser/
-- ad_block_subscription_service_manager.cc).

use chromium_adblock.Base.{
  ℕ, String, Bool, true, false, not, ◌&&◌, ◌||◌, Option, none, some, is_some, List, [], ◌∷◌, ◌≡◌,
  refl, sym, ap, ◌∙◌, arith,
}
use chromium_adblock.Base.Dict.{Dict, find, contains}
use chromium_adblock.Web.{Gurl}
use chromium_adblock.Subscriptions.Info.{
  Value, SubscriptionInfo, FilterListMetadata, subscription_dict, with_metadata,
}
use chromium_adblock.Subscriptions.Manager.{
  Manager, refresh_subscription, delete_subscription, get_info, info_in, enable_info,
  create_subscription, enable_subscription, on_list_metadata, on_subscription_download_failure,
  on_subscription_downloaded, on_update_timer, start_due,
}
use chromium_adblock.Subscriptions.Providers.{
  choose-Matches, Matches, MatchesIf, enabled_in, update_known-Matches, start_download-Matches,
  create-Matches, delete-Matches, enable_info-Matches, announce-Matches, start_due-Matches,
}

pub data Operation : Type 0 where
  creates deletes : Gurl → Operation
  enables refreshes : Gurl → Bool → Operation
  has_metadata : Gurl → FilterListMetadata → Operation
  has_downloaded has_failed : Gurl → ℕ → Operation
  timer_fires : ℕ → Operation

module _ (time_to_value : ℕ → Value) (convert : Dict Value → SubscriptionInfo)
    (parse : String → Gurl) where
  abbrev pub apply : Operation → Manager → Option Manager
  apply (creates url) m = some (create_subscription time_to_value convert m url)
  apply (deletes url) m = some (delete_subscription m url)
  apply (enables url enabled) m = enable_subscription time_to_value convert m url enabled
  apply (refreshes url from_ui) m = some (refresh_subscription m url from_ui)
  apply (has_metadata url metadata) m = some (on_list_metadata time_to_value convert m url metadata)
  apply (has_downloaded url now) m =
      some (on_subscription_downloaded time_to_value convert m url now)
  apply (has_failed url now) m =
      some (on_subscription_download_failure time_to_value convert m url now)
  apply (timer_fires now) m = some (on_update_timer time_to_value convert parse m now)

  -- `none` from the first operation that EnableSubscription is not called for as it demands.
  abbrev run_from : List Operation → Option Manager → Option Manager
  run_from [] m = m
  run_from (op ∷ ops) none = none
  run_from (op ∷ ops) (some m) = run_from ops (apply op m)

  unfoldable pub run : List Operation → Manager → Option Manager
  run ops m = run_from ops (some m)

  module _
      (reads_enabled : (info : SubscriptionInfo)
        → (convert (subscription_dict time_to_value info)).enabled ≡ info.enabled) where
    abbrev Ok : Manager → Type 0
    Ok m = Matches time_to_value convert reads_enabled m

    pub apply-Matches :
        (op : Operation) (m : Manager)
        → Ok m
        → MatchesIf time_to_value convert reads_enabled (apply op m)
    unfolding enable_subscription refresh_subscription on_list_metadata on_subscription_downloaded
        on_subscription_download_failure on_update_timer get_info with_metadata
    apply-Matches (creates url) m ok = create-Matches time_to_value convert reads_enabled m url ok
    apply-Matches (deletes url) m ok = delete-Matches time_to_value convert reads_enabled m url ok
    apply-Matches (enables url enabled) m ok =
        enable_info-Matches time_to_value convert reads_enabled m url enabled
          (get_info time_to_value convert m url) ok
    apply-Matches (refreshes url from_ui) m ok =
        start_download-Matches time_to_value convert reads_enabled m url true ok
    apply-Matches (has_metadata url metadata) m ok =
        update_known-Matches time_to_value convert reads_enabled m url
          (λ info. with_metadata info metadata) (λ info. refl) ok _ refl
    apply-Matches (has_downloaded url now) m ok =
        announce-Matches time_to_value convert reads_enabled _ url
          (get_info time_to_value convert m url)
          (update_known-Matches time_to_value convert reads_enabled m url
            (λ info. record info {
              last_update_attempt = now;
              last_successful_update_attempt = now;
            })
            (λ info. refl) ok _ refl)
    apply-Matches (has_failed url now) m ok =
        update_known-Matches time_to_value convert reads_enabled m url
          (λ info. record info { last_update_attempt = now }) (λ info. refl) ok _ refl
    apply-Matches (timer_fires now) m ok =
        let (has, same, each) = ok in
        choose-Matches time_to_value convert reads_enabled (not m.has_local_state) m
          (start_due time_to_value convert parse m.prefs (record m { subscriptions = m.prefs }) now)
          (λ e. ok)
          (λ e.
            start_due-Matches time_to_value convert reads_enabled parse m.prefs
              (record m { subscriptions = m.prefs }) now
              (
                has,
                refl,
                λ key.
                    each key
                    ∙ ap (λ d. enabled_in time_to_value convert reads_enabled (find d key))
                        (sym same),
              ))

    run_from-Matches :
        (ops : List Operation) (m : Option Manager)
        → MatchesIf time_to_value convert reads_enabled m
        → MatchesIf time_to_value convert reads_enabled (run_from ops m)
    run_from-Matches [] m ok = ok
    run_from-Matches (op ∷ ops) none ok = tt
    run_from-Matches (op ∷ ops) (some m) ok =
        run_from-Matches ops (apply op m) (apply-Matches op m ok)

    -- From a manager with a local state, whose subscriptions are those of the preference and whose
    -- filters providers are exactly those of the enabled ones, every sequence of creations,
    -- deletions, changes, metadata, downloads and timer ticks comes to such a manager again, unless
    -- EnableSubscription is called where it has no result.
    pub run-Matches :
        (ops : List Operation) (m : Manager)
        → m.has_local_state ≡ true
        → m.prefs ≡ m.subscriptions
        → ((key : String)
            → contains m.subscription_filters_providers key
              ≡ enabled_in time_to_value convert reads_enabled (find m.subscriptions key))
        → MatchesIf time_to_value convert reads_enabled (run ops m)
    unfolding run
    run-Matches ops m has same each = run_from-Matches ops (some m) (has, same, each)

    found-defined :
        (m : Manager) (url : Gurl) (enabled : Bool) (found : Option (Dict Value))
        → contains m.subscription_filters_providers url.spec
          ≡ enabled_in time_to_value convert reads_enabled found
        → is_some (
            enable_info time_to_value convert m url enabled
              (info_in time_to_value convert url found))
          ≡ (is_some found && (enabled || enabled_in time_to_value convert reads_enabled found))
    found-defined m url enabled none e = refl
    found-defined m url true (some dict) e = refl
    found-defined m url false (some dict) e = ground arith

    -- Where the filters providers are those of the enabled subscriptions, EnableSubscription has a
    -- result exactly if the subscription is known, and is enabled now if it is to be disabled.
    pub enable_subscription_defined :
        (m : Manager) (url : Gurl) (enabled : Bool)
        → ((key : String)
            → contains m.subscription_filters_providers key
              ≡ enabled_in time_to_value convert reads_enabled (find m.subscriptions key))
        → is_some (enable_subscription time_to_value convert m url enabled) ≡ (
            is_some (find m.subscriptions url.spec)
            && (enabled
                || enabled_in time_to_value convert reads_enabled (find m.subscriptions url.spec)))
    unfolding enable_subscription get_info
    enable_subscription_defined m url enabled each =
        found-defined m url enabled (find m.subscriptions url.spec) (each url.spec)
