-- ===== src/Settings/Served.antt =====
-- Which messages to the settings page are served (chrome/browser/ui/webui/brave_adblock_ui.cc):
-- the others fail a CHECK, read an argument that is not there, or have EnableSubscription dereference
-- what is not there.
use chromium_adblock.Base.{
  ℕ, String, Bool, true, false, not, ◌&&◌, ◌||◌, ◌≡◌, refl, ◌∙◌, Option, none, some, is_some, List,
  [], ◌∷◌, is_nil, if◌then◌else◌,
}
use chromium_adblock.Base.Dict.{Dict, find}
use chromium_adblock.Web.{Gurl}
use chromium_adblock.Subscriptions.Info.{Value, SubscriptionInfo, subscription_dict}
use chromium_adblock.Subscriptions.Manager.{Manager, enable_subscription}
use chromium_adblock.Subscriptions.Providers.{Matches, enabled_in}
use chromium_adblock.Subscriptions.Runs.{enable_subscription_defined}
use chromium_adblock.Settings.{
  Argument, text_argument, flag_argument, value_argument, Message, get_filters,
  get_list_subscriptions, update_filters, submit_new_subscription, set_subscription_enabled,
  delete_list, refresh_list, view_subscription_source, get_resources, get_resource_keys,
  add_custom_resource, update_custom_resource, remove_custom_resource, remove_custom_resource_key,
  Page, PageEvent, sends, finds_metadata, downloads_list, fails_download, updates, leaves, one_text,
  two_texts, three_texts, two_texts_and_dict, three_texts_and_dict, allow_javascript, then_refresh,
  with_url, with_arguments, handle_submit_new_subscription, handle_set_subscription_enabled,
  handle_delete_subscription, handle_refresh_subscription, handle_view_subscription_source,
  handle_update_custom_filters, handle_message, page_step,
}
use chromium_adblock.Settings.Arguments.{
  text, dict, have_kinds, one_text-have_kinds, two_texts-have_kinds, three_texts-have_kinds,
  two_texts_and_dict-have_kinds, three_texts_and_dict-have_kinds,
}

module _ (time_to_value : ℕ → Value) (convert : Dict Value → SubscriptionInfo)
    (parse : String → Gurl)
    (reads_enabled : (info : SubscriptionInfo)
      → (convert (subscription_dict time_to_value info)).enabled ≡ info.enabled) where
  -- An enabled subscription can be enabled and disabled, a disabled one enabled, an unknown one
  -- neither.
  abbrev pub can_set : Manager → Gurl → Bool → Bool
  can_set m url enabled =
      is_some (find m.subscriptions url.spec)
      && (enabled || enabled_in time_to_value convert reads_enabled (find m.subscriptions url.spec))

  abbrev pub can_set_by : Manager → List Argument → Bool
  can_set_by m [] = false
  can_set_by m (text_argument link ∷ []) = false
  can_set_by m (flag_argument flag ∷ []) = true
  can_set_by m (value_argument value ∷ []) = true
  can_set_by m (text_argument link ∷ flag_argument enabled ∷ args) =
      not (parse link).is_valid || can_set m (parse link) enabled
  can_set_by m (text_argument link ∷ text_argument other ∷ args) = true
  can_set_by m (text_argument link ∷ value_argument other ∷ args) = true
  can_set_by m (flag_argument flag ∷ other ∷ args) = true
  can_set_by m (value_argument value ∷ other ∷ args) = true

  -- The first two messages read no argument, those about one list read the first, and those about
  -- resources CHECK how many arguments of which kinds there are.
  abbrev pub is_served : Message → List Argument → Manager → Bool
  is_served get_filters args m = true
  is_served get_list_subscriptions args m = true
  is_served set_subscription_enabled args m = can_set_by m args
  is_served update_filters args m = not (is_nil args)
  is_served submit_new_subscription args m = not (is_nil args)
  is_served delete_list args m = not (is_nil args)
  is_served refresh_list args m = not (is_nil args)
  is_served view_subscription_source args m = not (is_nil args)
  is_served get_resources args m = have_kinds (text ∷ text ∷ []) args
  is_served get_resource_keys args m = have_kinds (text ∷ []) args
  is_served add_custom_resource args m = have_kinds (text ∷ text ∷ dict ∷ []) args
  is_served update_custom_resource args m = have_kinds (text ∷ text ∷ text ∷ dict ∷ []) args
  is_served remove_custom_resource args m = have_kinds (text ∷ text ∷ text ∷ []) args
  is_served remove_custom_resource_key args m = have_kinds (text ∷ text ∷ []) args

  abbrev pub is_served_event : PageEvent → Manager → Bool
  is_served_event (sends message args) m = is_served message args m
  is_served_event (finds_metadata url metadata) m = true
  is_served_event (downloads_list url now) m = true
  is_served_event (fails_download url now) m = true
  is_served_event (updates now) m = true
  is_served_event leaves m = true

  module _ (is_string_ascii : String → Bool) {Storage : Type 0} where
    -- Each message is served, with the subscriptions as they are when it comes.
    abbrev pub all_served : List PageEvent → Option (Page Storage) → Bool
    all_served [] page = true
    all_served (event ∷ events) none = false
    all_served (event ∷ events) (some page) =
        let rest =
          all_served events (page_step time_to_value convert parse is_string_ascii event page) in
        is_served_event event page.manager && rest

    with_url-is_some :
        (url : Argument) (page : Page Storage) (use_url : Gurl → Option (Page Storage))
        → ((u : Gurl) → is_some (use_url u) ≡ true)
        → is_some (with_url time_to_value convert parse is_string_ascii url page use_url) ≡ true
    with_url-is_some (text_argument link) page use_url each = by_valid (parse link).is_valid
      where
        by_valid :
            (valid : Bool) → is_some (if valid then use_url (parse link) else some page) ≡ true
        by_valid true = each (parse link)
        by_valid false = refl
    with_url-is_some (flag_argument flag) page use_url each = refl
    with_url-is_some (value_argument value) page use_url each = refl

    with_arguments-is_some :
        {A : Type 0} (arguments : Option A) (use_arguments : A → Page Storage)
        → is_some
            (with_arguments time_to_value convert parse is_string_ascii arguments use_arguments)
          ≡ is_some arguments
    with_arguments-is_some none use_arguments = refl
    with_arguments-is_some (some arguments) use_arguments = refl

    then_refresh-is_some :
        (page : Page Storage) (m : Option Manager)
        → is_some (then_refresh time_to_value convert parse is_string_ascii page m) ≡ is_some m
    then_refresh-is_some page none = refl
    then_refresh-is_some page (some m) = refl

    module _ (page : Page Storage)
        (matches : Matches time_to_value convert reads_enabled page.manager) where
      set_enabled-is_some :
          (args : List Argument)
          → is_some (
              handle_set_subscription_enabled time_to_value convert parse is_string_ascii args page)
            ≡ can_set_by page.manager args
      unfolding handle_set_subscription_enabled
      set_enabled-is_some [] = refl
      set_enabled-is_some (text_argument link ∷ []) = refl
      set_enabled-is_some (flag_argument flag ∷ []) = refl
      set_enabled-is_some (value_argument value ∷ []) = refl
      set_enabled-is_some (text_argument link ∷ flag_argument enabled ∷ args) =
          by_valid (parse link).is_valid
        where
          changed : Option Manager
          changed = enable_subscription time_to_value convert page.manager (parse link) enabled

          by_valid :
              (valid : Bool)
              → is_some (
                  if valid
                  then then_refresh time_to_value convert parse is_string_ascii page changed
                  else some page)
                ≡ (not valid || can_set page.manager (parse link) enabled)
          by_valid true =
              then_refresh-is_some page changed
              ∙ enable_subscription_defined time_to_value convert parse reads_enabled page.manager
                  (parse link) enabled matches.2
          by_valid false = refl
      set_enabled-is_some (text_argument link ∷ text_argument other ∷ args) = refl
      set_enabled-is_some (text_argument link ∷ value_argument other ∷ args) = refl
      set_enabled-is_some (flag_argument flag ∷ flag_argument other ∷ args) = refl
      set_enabled-is_some (flag_argument flag ∷ text_argument other ∷ args) = refl
      set_enabled-is_some (flag_argument flag ∷ value_argument other ∷ args) = refl
      set_enabled-is_some (value_argument value ∷ flag_argument other ∷ args) = refl
      set_enabled-is_some (value_argument value ∷ text_argument other ∷ args) = refl
      set_enabled-is_some (value_argument value ∷ value_argument other ∷ args) = refl

    module _ (page : Page Storage)
        (matches : Matches time_to_value convert reads_enabled page.manager) where
      message-is_some :
          (message : Message) (args : List Argument)
          → is_some (handle_message time_to_value convert parse is_string_ascii message args page)
            ≡ is_served message args page.manager
      unfolding handle_message handle_submit_new_subscription handle_delete_subscription
          handle_refresh_subscription handle_view_subscription_source handle_update_custom_filters
      message-is_some get_filters args = refl
      message-is_some get_list_subscriptions args = refl
      message-is_some set_subscription_enabled args =
          set_enabled-is_some (allow_javascript time_to_value convert parse is_string_ascii page)
            matches args
      message-is_some update_filters [] = refl
      message-is_some update_filters (text_argument link ∷ args) = refl
      message-is_some update_filters (flag_argument flag ∷ args) = refl
      message-is_some update_filters (value_argument value ∷ args) = refl
      message-is_some submit_new_subscription [] = refl
      message-is_some submit_new_subscription (url ∷ args) = with_url-is_some url _ _ (λ u. refl)
      message-is_some delete_list [] = refl
      message-is_some delete_list (url ∷ args) = with_url-is_some url _ _ (λ u. refl)
      message-is_some refresh_list [] = refl
      message-is_some refresh_list (url ∷ args) = with_url-is_some url _ _ (λ u. refl)
      message-is_some view_subscription_source [] = refl
      message-is_some view_subscription_source (url ∷ args) = with_url-is_some url _ _ (λ u. refl)
      message-is_some get_resources args =
          with_arguments-is_some (two_texts args) _ ∙ two_texts-have_kinds args
      message-is_some get_resource_keys args =
          with_arguments-is_some (one_text args) _ ∙ one_text-have_kinds args
      message-is_some add_custom_resource args =
          with_arguments-is_some (two_texts_and_dict args) _ ∙ two_texts_and_dict-have_kinds args
      message-is_some update_custom_resource args =
          with_arguments-is_some (three_texts_and_dict args) _
          ∙ three_texts_and_dict-have_kinds args
      message-is_some remove_custom_resource args =
          with_arguments-is_some (three_texts args) _ ∙ three_texts-have_kinds args
      message-is_some remove_custom_resource_key args =
          with_arguments-is_some (two_texts args) _ ∙ two_texts-have_kinds args

      pub page_step-is_some :
          (event : PageEvent)
          → is_some (page_step time_to_value convert parse is_string_ascii event page)
            ≡ is_served_event event page.manager
      unfolding page_step
      page_step-is_some (sends message args) = message-is_some message args
      page_step-is_some (finds_metadata url metadata) = refl
      page_step-is_some (downloads_list url now) = refl
      page_step-is_some (fails_download url now) = refl
      page_step-is_some (updates now) = refl
      page_step-is_some leaves = refl
