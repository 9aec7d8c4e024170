-- ===== src/Subscriptions/Manager.antt =====
-- The operations of AdBlockSubscriptionServiceManager (components/brave_shields/content/browser/
-- ad_block_subscription_service_manager.{h,cc}). A subscription is known by the spec of its URL.
use chromium_adblock.Base.{
  ℕ, suc, ◌+◌, ◌*◌, String, Bool, true, false, not, ◌&&◌, ◌||◌, ◌==◌, leb, Option, none, some, List,
  [], ◌∷◌, ◌++◌, if◌then◌else◌,
}
use chromium_adblock.Base.Dict.{Dict, find, set, erase, contains}
use chromium_adblock.Web.{Gurl}
use chromium_adblock.Subscriptions.Info.{
  Value, SubscriptionInfo, FilterListMetadata, subscription_dict, build_info_from_dict, new_info,
  with_metadata,
}

pub record Manager : Type 0 where
  -- the preference kAdBlockListSubscriptions, and whether there is a local state to have it
  pub has_local_state : Bool
  pub prefs : Dict (Dict Value)
  pub subscriptions : Dict (Dict Value)
  -- subscription_filters_providers_
  pub subscription_filters_providers : Dict Gurl
  -- none once the download manager is gone, or whether it is available
  pub download_manager : Option Bool
  -- effects, the oldest first
  pub downloads : List (Gurl × Bool)
  pub available : List Gurl
  pub deleted : List Gurl
  pub service_events : ℕ

abbrev pub value_or_false : Option Bool → Bool
value_or_false none = false
value_or_false (some b) = b

unfoldable pub start_download : Manager → Gurl → Bool → Manager
start_download m sub_url from_ui =
    if value_or_false m.download_manager
    then record m { downloads = m.downloads ++ (sub_url, from_ui) ∷ [] }
    else m

abbrev pub start_if : Bool → Manager → Gurl → Manager
start_if true m sub_url = start_download m sub_url false
start_if false m sub_url = m

-- RefreshSubscription does not look at `from_ui`.
unfoldable pub refresh_subscription : Manager → Gurl → Bool → Manager
unfolding start_download
refresh_subscription m sub_url from_ui = start_download m sub_url true

abbrev pub add_provider : Manager → Gurl → Manager
add_provider m sub_url = record m {
  subscription_filters_providers = set m.subscription_filters_providers sub_url.spec sub_url;
}

abbrev pub remove_provider : Manager → Gurl → Manager
remove_provider m sub_url = record m {
  subscription_filters_providers = erase m.subscription_filters_providers sub_url.spec;
}

abbrev pub list_available : Manager → Gurl → Manager
list_available m sub_url = record m { available = m.available ++ sub_url ∷ [] }

abbrev pub notify_service_event : Manager → Manager
notify_service_event m = record m { service_events = suc m.service_events }

unfoldable pub clear_subscription_prefs : Manager → Gurl → Manager
clear_subscription_prefs m sub_url =
    if not m.has_local_state
    then m
    else record m { prefs = erase m.prefs sub_url.spec; subscriptions = erase m.prefs sub_url.spec }

unfoldable pub delete_subscription : Manager → Gurl → Manager
delete_subscription m sub_url =
    let cleared = clear_subscription_prefs (remove_provider m sub_url) sub_url in
    record cleared { deleted = cleared.deleted ++ sub_url ∷ [] }

module _ (time_to_value : ℕ → Value) (convert : Dict Value → SubscriptionInfo) where
  unfoldable pub update_subscription_prefs : Manager → Gurl → SubscriptionInfo → Manager
  update_subscription_prefs m sub_url info = if not m.has_local_state then m else record m {
    prefs = set m.prefs sub_url.spec (subscription_dict time_to_value info);
    subscriptions = set m.prefs sub_url.spec (subscription_dict time_to_value info);
  }

  abbrev pub info_in : Gurl → Option (Dict Value) → Option SubscriptionInfo
  info_in sub_url none = none
  info_in sub_url (some dict) = some (build_info_from_dict convert sub_url dict)

  unfoldable pub get_info : Manager → Gurl → Option SubscriptionInfo
  get_info m sub_url = info_in sub_url (find m.subscriptions sub_url.spec)

  unfoldable pub create_subscription : Manager → Gurl → Manager
  create_subscription m sub_url =
      if contains m.subscription_filters_providers sub_url.spec
      then m
      else start_download
          (add_provider (update_subscription_prefs m sub_url (new_info sub_url)) sub_url) sub_url
          true

  -- A new provider announces its list, also where one is there that the map keeps.
  abbrev pub change_provider : Manager → Gurl → Bool → Option Manager
  change_provider m sub_url true = some (
      if contains m.subscription_filters_providers sub_url.spec
      then list_available m sub_url
      else add_provider (list_available m sub_url) sub_url)
  change_provider m sub_url false =
      if contains m.subscription_filters_providers sub_url.spec
      then some (remove_provider m sub_url)
      else none

  abbrev pub store_enabled : Gurl → SubscriptionInfo → Bool → Option Manager → Option Manager
  store_enabled sub_url info enabled none = none
  store_enabled sub_url info enabled (some m) =
      some (update_subscription_prefs m sub_url (record info { enabled = enabled }))

  abbrev pub enable_info : Manager → Gurl → Bool → Option SubscriptionInfo → Option Manager
  enable_info m sub_url enabled none = none
  enable_info m sub_url enabled (some info) =
      store_enabled sub_url info enabled (change_provider m sub_url enabled)

  -- EnableSubscription. `none` where it uses what is not there: the info of a subscription that is
  -- not known, or the provider of one that is to be disabled.
  unfoldable pub enable_subscription : Manager → Gurl → Bool → Option Manager
  unfolding get_info
  enable_subscription m sub_url enabled = enable_info m sub_url enabled (get_info m sub_url)

  abbrev pub update_known :
      Manager → Gurl → Option SubscriptionInfo → (SubscriptionInfo → SubscriptionInfo) → Manager
  update_known m sub_url none change = m
  update_known m sub_url (some info) change =
      notify_service_event (update_subscription_prefs m sub_url (change info))

  unfoldable pub on_list_metadata : Manager → Gurl → FilterListMetadata → Manager
  unfolding get_info
  on_list_metadata m sub_url metadata =
      update_known m sub_url (get_info m sub_url) (λ info. with_metadata info metadata)

  unfoldable pub on_subscription_download_failure : Manager → Gurl → ℕ → Manager
  unfolding get_info
  on_subscription_download_failure m sub_url now =
      update_known m sub_url (get_info m sub_url)
        (λ info. record info { last_update_attempt = now })

  abbrev pub announce_known : Manager → Gurl → Option SubscriptionInfo → Manager
  announce_known m sub_url none = m
  announce_known m sub_url (some info) =
      if contains m.subscription_filters_providers sub_url.spec then list_available m sub_url else m

  unfoldable pub on_subscription_downloaded : Manager → Gurl → ℕ → Manager
  unfolding get_info
  on_subscription_downloaded m sub_url now =
      let info = get_info m sub_url in
      announce_known
        (update_known m sub_url info (λ known. record known {
          last_update_attempt = now;
          last_successful_update_attempt = now;
        }))
        sub_url info

  -- Whether a list is to be downloaded at `now`: `Hours(expires) - (now - last) <= 0`, in
  -- microseconds.
  abbrev pub is_due : SubscriptionInfo → ℕ → Bool
  is_due info now =
      info.enabled
      && (not (info.last_update_attempt == info.last_successful_update_attempt)
          || leb (info.expires * 3600000000 + info.last_update_attempt) now)

  -- `GURL(key)` is the parameter `parse`.
  module _ (parse : String → Gurl) where
    abbrev pub start_due : Dict (Dict Value) → Manager → ℕ → Manager
    start_due [] m now = m
    start_due ((key, dict) ∷ entries) m now =
        start_due entries
          (start_if (is_due (build_info_from_dict convert (parse key) dict) now) m (parse key)) now

    unfoldable pub on_update_timer : Manager → ℕ → Manager
    on_update_timer m now =
        if not m.has_local_state
        then m
        else start_due m.prefs (record m { subscriptions = m.prefs }) now

    abbrev load_each : Dict (Dict Value) → Manager → Manager
    load_each [] m = m
    load_each ((key, dict) ∷ entries) m = load_each entries (
        if (build_info_from_dict convert (parse key) dict).enabled
        then (if contains m.subscription_filters_providers (parse key).spec
            then list_available m (parse key)
            else add_provider (list_available m (parse key)) (parse key))
        else m)

    unfoldable pub load_subscription_services : Manager → Manager
    load_subscription_services m =
        if not m.has_local_state
        then m
        else load_each m.prefs (record m { subscriptions = m.prefs })
