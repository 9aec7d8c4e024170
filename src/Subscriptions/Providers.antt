-- ===== src/Subscriptions/Providers.antt =====
-- The filters providers are those of the enabled subscriptions (components/brave_shields/content/
-- browser/ad_block_subscription_service_manager.cc).
use chromium_adblock.Base.{
  ℕ, String, Bool, true, false, ◌=s=◌, Option, none, some, [], ◌∷◌, ◌++◌, ◌≡◌, refl, eq_iff, arith,
  if◌then◌else◌,
}
use chromium_adblock.Base.Dict.{Dict, find, contains, find-set, find-erase}
use chromium_adblock.Web.{Gurl}
use chromium_adblock.Subscriptions.Info.{
  Value, SubscriptionInfo, subscription_dict, build_info_from_dict, new_info,
}
use chromium_adblock.Subscriptions.Manager.{
  value_or_false, store_enabled, change_provider, enable_info, announce_known, list_available,
  remove_provider, start_due, start_if, Manager, start_download, delete_subscription,
  clear_subscription_prefs, update_subscription_prefs, create_subscription, add_provider,
  update_known, info_in,
}

module _ (time_to_value : ℕ → Value) (convert : Dict Value → SubscriptionInfo)
    (reads_enabled : (info : SubscriptionInfo)
      → (convert (subscription_dict time_to_value info)).enabled ≡ info.enabled) where
  abbrev pub enabled_in : Option (Dict Value) → Bool
  enabled_in none = false
  enabled_in (some dict) = (convert dict).enabled

  -- There is a local state, whose subscriptions are the manager's, and exactly the enabled ones
  -- have a provider.
  abbrev pub Matches : Manager → Type 0
  Matches m =
      (m.has_local_state ≡ true)
      × (m.prefs ≡ m.subscriptions)
      × ((key : String)
          → contains m.subscription_filters_providers key ≡ enabled_in (find m.subscriptions key))

  update-Matches :
      (m : Manager) (sub_url : Gurl) (info : SubscriptionInfo)
      → m.has_local_state ≡ true
      → m.prefs ≡ m.subscriptions
      → ((key : String)
          → contains m.subscription_filters_providers key ≡ (
              if sub_url.spec =s= key then info.enabled else enabled_in (find m.subscriptions key)))
      → Matches (update_subscription_prefs time_to_value convert m sub_url info)
  unfolding update_subscription_prefs
  update-Matches m sub_url info has same here = (
    ground arith,
    ground arith,
    λ key. ground (
      arith,
      here key,
      find-set m.prefs sub_url.spec key (subscription_dict time_to_value info),
      reads_enabled info,
    ),
  )

  -- An info that is stored again with the same `enabled`.
  pub update_known-Matches :
      (m : Manager) (sub_url : Gurl) (change : SubscriptionInfo → SubscriptionInfo)
      → ((info : SubscriptionInfo) → (change info).enabled ≡ info.enabled)
      → Matches m
      → (found : Option (Dict Value)) → find m.subscriptions sub_url.spec ≡ found
      → Matches (
          update_known time_to_value convert m sub_url
            (info_in time_to_value convert sub_url found)
            change)
  unfolding build_info_from_dict
  update_known-Matches m sub_url change kept (has, same, each) none e = (has, same, each)
  update_known-Matches m sub_url change kept (has, same, each) (some dict) e =
      update-Matches m sub_url (change (build_info_from_dict convert sub_url dict)) has same λ key.
        ground (
          arith,
          each key,
          each sub_url.spec,
          kept (build_info_from_dict convert sub_url dict),
          eq_iff sub_url.spec key,
        )

  pub choose-Matches :
      (test : Bool) (x y : Manager)
      → (test ≡ true → Matches x)
      → (test ≡ false → Matches y)
      → Matches (if test then x else y)
  choose-Matches true x y cx cy = cx refl
  choose-Matches false x y cx cy = cy refl

  pub start_download-Matches :
      (m : Manager) (sub_url : Gurl) (from_ui : Bool)
      → Matches m
      → Matches (start_download m sub_url from_ui)
  unfolding start_download
  start_download-Matches m sub_url from_ui (has, same, each) =
      choose-Matches (value_or_false m.download_manager)
        (record m { downloads = m.downloads ++ (sub_url, from_ui) ∷ [] }) m (λ e. (has, same, each))
        (λ e. (has, same, each))

  provider_of_new :
      (m : Manager) (sub_url : Gurl)
      → Matches m
      → Matches (
          add_provider
            (update_subscription_prefs time_to_value convert m sub_url (new_info sub_url))
            sub_url)
  unfolding update_subscription_prefs contains
  provider_of_new m sub_url (has, same, each) = (
    ground arith,
    ground arith,
    λ key. ground (
      arith,
      each key,
      find-set m.subscription_filters_providers sub_url.spec key sub_url,
      find-set m.prefs sub_url.spec key (subscription_dict time_to_value (new_info sub_url)),
      reads_enabled (new_info sub_url),
    ),
  )

  pub create-Matches :
      (m : Manager) (sub_url : Gurl)
      → Matches m
      → Matches (create_subscription time_to_value convert m sub_url)
  unfolding create_subscription
  create-Matches m sub_url ok =
      choose-Matches (contains m.subscription_filters_providers sub_url.spec) m
        (start_download
          (add_provider
            (update_subscription_prefs time_to_value convert m sub_url (new_info sub_url)) sub_url)
          sub_url true)
        (λ e. ok) (λ e. start_download-Matches _ sub_url true (provider_of_new m sub_url ok))

  pub delete-Matches :
      (m : Manager) (sub_url : Gurl) → Matches m → Matches (delete_subscription m sub_url)
  unfolding delete_subscription clear_subscription_prefs contains
  delete-Matches m sub_url (has, same, each) = (
    ground arith,
    ground arith,
    λ key. ground (
      arith,
      each key,
      find-erase m.prefs sub_url.spec key,
      find-erase m.subscription_filters_providers sub_url.spec key,
    ),
  )

  -- Of a manager that there is.
  abbrev pub MatchesIf : Option Manager → Type 0
  MatchesIf none = Unit
  MatchesIf (some m) = Matches m

  enabled-Matches :
      (m : Manager) (sub_url : Gurl) (info : SubscriptionInfo)
      → Matches m
      → MatchesIf (
          store_enabled time_to_value convert sub_url info true
            (change_provider time_to_value convert m sub_url true))
  unfolding contains
  enabled-Matches m sub_url info (has, same, each) =
      update-Matches
        (if contains m.subscription_filters_providers sub_url.spec
          then list_available m sub_url
          else add_provider (list_available m sub_url) sub_url)
        sub_url (record info { enabled = true }) (ground arith) (ground arith)
        λ key. ground (
          arith,
          each key,
          each sub_url.spec,
          find-set m.subscription_filters_providers sub_url.spec key sub_url,
          eq_iff sub_url.spec key,
        )

  disabled-Matches :
      (m : Manager) (sub_url : Gurl) (info : SubscriptionInfo) (has_provider : Bool)
      → Matches m
      → MatchesIf (
          store_enabled time_to_value convert sub_url info false
            (if has_provider then some (remove_provider m sub_url) else none))
  unfolding contains
  disabled-Matches m sub_url info false ok = tt
  disabled-Matches m sub_url info true (has, same, each) =
      update-Matches (remove_provider m sub_url) sub_url (record info { enabled = false }) has same
        λ key.
          ground (arith, each key, find-erase m.subscription_filters_providers sub_url.spec key)

  pub enable_info-Matches :
      (m : Manager) (sub_url : Gurl) (enabled : Bool) (info : Option SubscriptionInfo)
      → Matches m
      → MatchesIf (enable_info time_to_value convert m sub_url enabled info)
  enable_info-Matches m sub_url enabled none ok = tt
  enable_info-Matches m sub_url true (some info) ok = enabled-Matches m sub_url info ok
  enable_info-Matches m sub_url false (some info) ok = disabled-Matches m sub_url info _ ok

  pub announce-Matches :
      (m : Manager) (sub_url : Gurl) (info : Option SubscriptionInfo)
      → Matches m
      → Matches (announce_known time_to_value convert m sub_url info)
  announce-Matches m sub_url none ok = ok
  announce-Matches m sub_url (some info) (has, same, each) =
      choose-Matches (contains m.subscription_filters_providers sub_url.spec)
        (list_available m sub_url) m (λ e. (has, same, each)) (λ e. (has, same, each))

  start_if-Matches :
      (due : Bool) (m : Manager) (sub_url : Gurl) → Matches m → Matches (start_if due m sub_url)
  start_if-Matches true m sub_url ok = start_download-Matches m sub_url false ok
  start_if-Matches false m sub_url ok = ok

  pub start_due-Matches :
      (parse : String → Gurl) (entries : Dict (Dict Value)) (m : Manager) (now : ℕ)
      → Matches m
      → Matches (start_due time_to_value convert parse entries m now)
  start_due-Matches parse [] m now ok = ok
  start_due-Matches parse ((key, dict) ∷ entries) m now ok =
      start_due-Matches parse entries _ now (start_if-Matches _ m (parse key) ok)
