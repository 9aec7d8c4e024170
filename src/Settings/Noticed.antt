-- ===== src/Settings/Noticed.antt =====
-- What the settings page is told of by the subscriptions on their own
-- (components/brave_shields/content/browser/ad_block_subscription_service_manager.cc).
use chromium_adblock.Base.{
  ℕ, String, Bool, true, false, not, ltb, ◌≡◌, refl, ap, ◌∙◌, Option, none, some, [], ◌∷◌, ◌++◌,
  ◌⊎◌, inl, inr, arith, if◌then◌else◌,
}
use chromium_adblock.Base.Dict.{Dict, contains, set}
use chromium_adblock.Web.{Gurl}
use chromium_adblock.Subscriptions.Info.{
  Value, SubscriptionInfo, FilterListMetadata, build_info_from_dict, with_metadata,
  subscription_dict,
}
use chromium_adblock.Subscriptions.Manager.{
  Manager, value_or_false, start_download, start_if, refresh_subscription,
  update_subscription_prefs, get_info, update_known, on_list_metadata,
  on_subscription_download_failure, announce_known, list_available, on_subscription_downloaded,
  is_due, start_due, on_update_timer,
}

-- The subscriptions are as they were, or the observers have been told.
abbrev pub Noticed : Manager → Manager → Type 0
Noticed m m' =
    (m'.subscriptions ≡ m.subscriptions) ⊎ (ltb m.service_events m'.service_events ≡ true)

-- Neither the subscriptions nor what the observers have been told has changed.
record IsQuiet (m m' : Manager) : Type 0 where
  subscriptions : m'.subscriptions ≡ m.subscriptions
  service_events : m'.service_events ≡ m.service_events

choose-IsQuiet :
    (test : Bool) (m a b : Manager) → IsQuiet m a → IsQuiet m b → IsQuiet m (if test then a else b)
choose-IsQuiet true m a b p q = p
choose-IsQuiet false m a b p q = q

IsQuiet-refl : (m : Manager) → IsQuiet m m
IsQuiet-refl m = record { subscriptions = refl; service_events = refl }

IsQuiet-trans : (m m' m'' : Manager) → IsQuiet m m' → IsQuiet m' m'' → IsQuiet m m''
IsQuiet-trans m m' m'' p q = record {
  subscriptions = q.subscriptions ∙ p.subscriptions;
  service_events = q.service_events ∙ p.service_events;
}

start_download-IsQuiet :
    (m : Manager) (url : Gurl) (from_ui : Bool) → IsQuiet m (start_download m url from_ui)
unfolding start_download
start_download-IsQuiet m url from_ui =
    choose-IsQuiet (value_or_false m.download_manager) m
      (record m { downloads = m.downloads ++ (url, from_ui) ∷ [] }) m
      (record { subscriptions = refl; service_events = refl }) (IsQuiet-refl m)

start_if-IsQuiet : (due : Bool) (m : Manager) (url : Gurl) → IsQuiet m (start_if due m url)
start_if-IsQuiet true m url = start_download-IsQuiet m url false
start_if-IsQuiet false m url = IsQuiet-refl m

pub refresh_subscription-Noticed :
    (m : Manager) (url : Gurl) (from_ui : Bool) → Noticed m (refresh_subscription m url from_ui)
unfolding refresh_subscription
refresh_subscription-Noticed m url from_ui = inl (start_download-IsQuiet m url true).subscriptions

module _ (time_to_value : ℕ → Value) (convert : Dict Value → SubscriptionInfo) where
  events-update :
      (m : Manager) (url : Gurl) (info : SubscriptionInfo)
      → (update_subscription_prefs time_to_value convert m url info).service_events
        ≡ m.service_events
  unfolding update_subscription_prefs
  events-update m url info = choose-events (not m.has_local_state)
    where
      choose-events :
          (test : Bool)
          → (if test then m else record m {
            prefs = set m.prefs url.spec (subscription_dict time_to_value info);
            subscriptions = set m.prefs url.spec (subscription_dict time_to_value info);
          }).service_events
            ≡ m.service_events
      choose-events true = refl
      choose-events false = refl

  update_known-Noticed :
      (m : Manager) (url : Gurl) (found : Option SubscriptionInfo)
      (change : SubscriptionInfo → SubscriptionInfo)
      → Noticed m (update_known time_to_value convert m url found change)
  update_known-Noticed m url none change = inl refl
  update_known-Noticed m url (some info) change =
      inr (ground (arith, events-update m url (change info)))

  pub on_list_metadata-Noticed :
      (m : Manager) (url : Gurl) (metadata : FilterListMetadata)
      → Noticed m (on_list_metadata time_to_value convert m url metadata)
  unfolding on_list_metadata
  on_list_metadata-Noticed m url metadata =
      update_known-Noticed m url (get_info time_to_value convert m url)
        (λ info. with_metadata info metadata)

  pub on_subscription_download_failure-Noticed :
      (m : Manager) (url : Gurl) (now : ℕ)
      → Noticed m (on_subscription_download_failure time_to_value convert m url now)
  unfolding on_subscription_download_failure
  on_subscription_download_failure-Noticed m url now =
      update_known-Noticed m url (get_info time_to_value convert m url)
        (λ info. record info { last_update_attempt = now })

  announce_known-IsQuiet :
      (m : Manager) (url : Gurl) (found : Option SubscriptionInfo)
      → IsQuiet m (announce_known time_to_value convert m url found)
  announce_known-IsQuiet m url none = IsQuiet-refl m
  announce_known-IsQuiet m url (some info) =
      choose-IsQuiet (contains m.subscription_filters_providers url.spec) m (list_available m url) m
        (record { subscriptions = refl; service_events = refl }) (IsQuiet-refl m)

  quiet-Noticed : (m m' m'' : Manager) → Noticed m m' → IsQuiet m' m'' → Noticed m m''
  quiet-Noticed m m' m'' (inl same) q = inl (q.subscriptions ∙ same)
  quiet-Noticed m m' m'' (inr told) q =
      inr (ap (λ events. ltb m.service_events events) q.service_events ∙ told)

  pub on_subscription_downloaded-Noticed :
      (m : Manager) (url : Gurl) (now : ℕ)
      → Noticed m (on_subscription_downloaded time_to_value convert m url now)
  unfolding on_subscription_downloaded
  on_subscription_downloaded-Noticed m url now =
      let info = get_info time_to_value convert m url in
      let change = λ (known : SubscriptionInfo). record known {
        last_update_attempt = now;
        last_successful_update_attempt = now;
      } in
      quiet-Noticed m (update_known time_to_value convert m url info change) _
        (update_known-Noticed m url info change)
        (announce_known-IsQuiet (update_known time_to_value convert m url info change) url info)

  start_due-IsQuiet :
      (parse : String → Gurl) (entries : Dict (Dict Value)) (m : Manager) (now : ℕ)
      → IsQuiet m (start_due time_to_value convert parse entries m now)
  start_due-IsQuiet parse [] m now = IsQuiet-refl m
  start_due-IsQuiet parse ((key, dict) ∷ entries) m now =
      let due = is_due time_to_value convert (build_info_from_dict convert (parse key) dict) now in
      let started = start_if due m (parse key) in
      IsQuiet-trans m started _ (start_if-IsQuiet due m (parse key))
        (start_due-IsQuiet parse entries started now)

  pub on_update_timer-Noticed :
      (parse : String → Gurl) (m : Manager) (now : ℕ)
      → m.prefs ≡ m.subscriptions
      → Noticed m (on_update_timer time_to_value convert parse m now)
  unfolding on_update_timer
  on_update_timer-Noticed parse m now same = by_state (not m.has_local_state)
    where
      by_state :
          (test : Bool)
          → Noticed m (
              if test
              then m
              else start_due time_to_value convert parse m.prefs
                  (record m { subscriptions = m.prefs })
                  now)
      by_state true = inl refl
      by_state false = inl (
          (start_due-IsQuiet parse m.prefs (record m { subscriptions = m.prefs }) now).subscriptions
          ∙ same)
