-- ===== src/Settings/Sound.antt =====
-- The settings page and the services behind it over many messages
-- (chrome/browser/ui/webui/brave_adblock_ui.cc).
use chromium_adblock.Base.{
  ℕ, String, Bool, true, false, ltb, ◌≡◌, refl, sym, ap, ◌∙◌, Option, none, some, ◌⊎◌, inl, inr,
  arith, if◌then◌else◌,
}
use chromium_adblock.Base.Dict.{Dict}
use chromium_adblock.Web.{Gurl}
use chromium_adblock.CustomResources.{ErrorCode, Provider}
use chromium_adblock.CustomResources.Runs.{Unique}
use chromium_adblock.Subscriptions.Info.{Value, SubscriptionInfo, subscription_dict}
use chromium_adblock.Subscriptions.Manager.{Manager, enable_subscription}
use chromium_adblock.Subscriptions.Providers.{Matches, MatchesIf}
use chromium_adblock.Subscriptions.Runs.{enables, apply-Matches}
use chromium_adblock.Settings.{
  Argument, text_argument, flag_argument, value_argument, Answer, Page, rows_of,
  refresh_subscriptions_list, put_manager, then_refresh, allow_javascript, answer_page, with_url,
  with_arguments, on_resource_update_status, enable_by,
}
use chromium_adblock.Settings.Noticed.{Noticed}

module _ (time_to_value : ℕ → Value) (convert : Dict Value → SubscriptionInfo)
    (parse : String → Gurl) (is_string_ascii : String → Bool) {Storage : Type 0}
    (reads_enabled : (info : SubscriptionInfo)
      → (convert (subscription_dict time_to_value info)).enabled ≡ info.enabled) where
  abbrev pub IsCurrent : Page Storage → Type 0
  IsCurrent page =
      (page.shown ≡ none)
      ⊎ ((page.is_allowed ≡ true)
          × (page.shown ≡ some (rows_of convert parse page.manager.subscriptions)))

  -- Subscriptions and filters providers match, no key has two resources of one name, and the list
  -- that the page was given last, if it was given one, is the list of the subscriptions.
  pub record IsSound (page : Page Storage) : Type 0 where
    pub matches : Matches time_to_value convert reads_enabled page.manager
    pub unique : Unique is_string_ascii page.provider
    pub current : IsCurrent page

  abbrev pub IsSoundIf : Option (Page Storage) → Type 0
  IsSoundIf none = Unit
  IsSoundIf (some page) = IsSound page

  -- The page's list after the manager has changed on its own.
  pub put_manager-IsSound :
      (page : Page Storage) (m : Manager)
      → IsSound page
      → Matches time_to_value convert reads_enabled m
      → Noticed page.manager m
      → IsSound (put_manager time_to_value convert parse is_string_ascii page m)
  unfolding refresh_subscriptions_list
  put_manager-IsSound page m sound ok noticed =
      by_told (ltb page.manager.service_events m.service_events) refl page.is_allowed refl
    where
      put : Page Storage
      put = record page { manager = m }

      unseen : page.is_allowed ≡ false → page.shown ≡ none
      unseen hidden = elim sound.current [
        | inl blank ↦ blank
        | inr (allowed, shown) ↦ ground (arith, hidden, allowed)
      ]

      still : ltb page.manager.service_events m.service_events ≡ false → IsCurrent put
      still untold = elim sound.current [
        | inl blank ↦ inl blank
        | inr (allowed, shown) ↦ elim noticed [
          | inl same ↦ inr (allowed, shown ∙ ap (λ d. some (rows_of convert parse d)) (sym same))
          | inr told ↦ ground (arith, told, untold)
        ]
      ]

      by_told :
          (told : Bool)
          → ltb page.manager.service_events m.service_events ≡ told
          → (allowed : Bool) → page.is_allowed ≡ allowed
          → IsSound (
              if told
              then (if allowed
                  then refresh_subscriptions_list time_to_value convert parse is_string_ascii put
                  else put)
              else put)
      by_told true told true allowed = record {
        matches = ok;
        unique = sound.unique;
        current = inr (allowed, refl);
      }
      by_told true told false hidden = record {
        matches = ok;
        unique = sound.unique;
        current = inl (unseen hidden);
      }
      by_told false untold allowed e = record {
        matches = ok;
        unique = sound.unique;
        current = still untold;
      }

  pub then_refresh-IsSound :
      (page : Page Storage) (m : Option Manager)
      → page.is_allowed ≡ true
      → IsSound page
      → MatchesIf time_to_value convert reads_enabled m
      → IsSoundIf (then_refresh time_to_value convert parse is_string_ascii page m)
  unfolding refresh_subscriptions_list
  then_refresh-IsSound page none allowed sound ok = tt
  then_refresh-IsSound page (some m) allowed sound ok = record {
    matches = ok;
    unique = sound.unique;
    current = inr (allowed, refl);
  }

  pub allow-IsSound :
      (page : Page Storage)
      → IsSound page
      → IsSound (allow_javascript time_to_value convert parse is_string_ascii page)
  allow-IsSound page sound = record {
    matches = sound.matches;
    unique = sound.unique;
    current = elim sound.current [
      | inl blank ↦ inl blank
      | inr (allowed, shown) ↦ inr (refl, shown)
    ];
  }

  pub answer-IsSound :
      (answer : Answer) (page : Page Storage)
      → IsSound page
      → IsSound (answer_page time_to_value convert parse is_string_ascii answer page)
  answer-IsSound answer page sound = record {
    matches = sound.matches;
    unique = sound.unique;
    current = sound.current;
  }

  pub with_url-IsSound :
      (url : Argument) (page : Page Storage) (use_url : Gurl → Option (Page Storage))
      → IsSound page
      → ((u : Gurl) → IsSoundIf (use_url u))
      → IsSoundIf (with_url time_to_value convert parse is_string_ascii url page use_url)
  with_url-IsSound (text_argument text) page use_url sound each = by_valid (parse text).is_valid
    where
      by_valid : (valid : Bool) → IsSoundIf (if valid then use_url (parse text) else some page)
      by_valid true = each (parse text)
      by_valid false = sound
  with_url-IsSound (flag_argument flag) page use_url sound each = sound
  with_url-IsSound (value_argument value) page use_url sound each = sound

  pub with_arguments-IsSound :
      {A : Type 0} (arguments : Option A) (use_arguments : A → Page Storage)
      → ((a : A) → IsSound (use_arguments a))
      → IsSoundIf
          (with_arguments time_to_value convert parse is_string_ascii arguments use_arguments)
  with_arguments-IsSound none use_arguments each = tt
  with_arguments-IsSound (some a) use_arguments each = each a

  pub status-IsSound :
      (id : String) (page : Page Storage) (p : Provider Storage) (code : ErrorCode)
      → IsSound page
      → Unique is_string_ascii p
      → IsSound
          (on_resource_update_status time_to_value convert parse is_string_ascii id page (p, code))
  status-IsSound id page p code sound unique = record {
    matches = sound.matches;
    unique = unique;
    current = (allow-IsSound page sound).current;
  }

  pub enable_by-IsSound :
      (url enabled : Argument) (page : Page Storage)
      → page.is_allowed ≡ true
      → IsSound page
      → IsSoundIf (enable_by time_to_value convert parse is_string_ascii url enabled page)
  enable_by-IsSound url (flag_argument enabled) page allowed sound =
      with_url-IsSound url page
        (λ u.
          then_refresh time_to_value convert parse is_string_ascii page
            (enable_subscription time_to_value convert page.manager u enabled))
        sound
        (λ u.
          then_refresh-IsSound page
            (enable_subscription time_to_value convert page.manager u enabled) allowed sound
            (apply-Matches time_to_value convert parse reads_enabled (enables u enabled)
              page.manager sound.matches))
  enable_by-IsSound url (text_argument text) page allowed sound = sound
  enable_by-IsSound url (value_argument value) page allowed sound = sound
