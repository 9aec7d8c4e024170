-- ===== src/Settings/Messages.antt =====
-- Each message to the settings page (chrome/browser/ui/webui/brave_adblock_ui.cc).
use chromium_adblock.Base.{ℕ, String, Bool, true, ◌≡◌, refl, some, List, [], ◌∷◌, inr}
use chromium_adblock.Base.Dict.{Dict}
use chromium_adblock.Web.{Gurl}
use chromium_adblock.CustomResources.{
  get_custom_resources, add_resource, update_resource, remove_resource, remove_key,
}
use chromium_adblock.CustomResources.Runs.{
  add_resource-Unique, update_resource-Unique, remove_resource-Unique, remove_key-Unique,
}
use chromium_adblock.Subscriptions.Info.{Value, SubscriptionInfo, subscription_dict}
use chromium_adblock.Subscriptions.Manager.{
  refresh_subscription, delete_subscription, create_subscription,
}
use chromium_adblock.Subscriptions.Runs.{creates, deletes, refreshes, apply-Matches}
use chromium_adblock.DomainBlock.{get_custom_filters}
use chromium_adblock.Settings.{
  Argument, text_argument, flag_argument, value_argument, Message, get_filters,
  get_list_subscriptions, update_filters, submit_new_subscription, set_subscription_enabled,
  delete_list, refresh_list, view_subscription_source, get_resources, get_resource_keys,
  add_custom_resource, update_custom_resource, remove_custom_resource, remove_custom_resource_key,
  on_get_custom_filters, resolved_resources, resolved_keys, opened_source, Page, one_text,
  two_texts, three_texts, two_texts_and_dict, three_texts_and_dict, refresh_subscriptions_list,
  put_manager, then_refresh, allow_javascript, answer_page, handle_submit_new_subscription,
  handle_set_subscription_enabled, handle_delete_subscription, handle_refresh_subscription,
  handle_view_subscription_source, handle_update_custom_filters, handle_get_custom_resources,
  handle_get_custom_resource_keys, handle_add_custom_resource, handle_update_custom_resource,
  handle_remove_custom_resource, handle_remove_custom_resource_key, handle_message,
}
use chromium_adblock.Settings.Noticed.{refresh_subscription-Noticed}
use chromium_adblock.Settings.Sound.{
  IsSound, IsSoundIf, put_manager-IsSound, then_refresh-IsSound, allow-IsSound, answer-IsSound,
  with_url-IsSound, with_arguments-IsSound, status-IsSound, enable_by-IsSound,
}

module _ (time_to_value : ℕ → Value) (convert : Dict Value → SubscriptionInfo)
    (parse : String → Gurl) (is_string_ascii : String → Bool) {Storage : Type 0}
    (reads_enabled : (info : SubscriptionInfo)
      → (convert (subscription_dict time_to_value info)).enabled ≡ info.enabled) where
  handle_submit_new_subscription-IsSound :
      (args : List Argument) (page : Page Storage)
      → page.is_allowed ≡ true
      → IsSound time_to_value convert parse is_string_ascii reads_enabled page
      → IsSoundIf time_to_value convert parse is_string_ascii reads_enabled
          (handle_submit_new_subscription time_to_value convert parse is_string_ascii args page)
  unfolding handle_submit_new_subscription
  handle_submit_new_subscription-IsSound [] page allowed sound = tt
  handle_submit_new_subscription-IsSound (url ∷ args) page allowed sound =
      with_url-IsSound time_to_value convert parse is_string_ascii reads_enabled url page
        (λ u.
          then_refresh time_to_value convert parse is_string_ascii page
            (some (create_subscription time_to_value convert page.manager u)))
        sound
        (λ u.
          then_refresh-IsSound time_to_value convert parse is_string_ascii reads_enabled page
            (some (create_subscription time_to_value convert page.manager u)) allowed sound
            (apply-Matches time_to_value convert parse reads_enabled (creates u) page.manager
              sound.matches))

  handle_delete_subscription-IsSound :
      (args : List Argument) (page : Page Storage)
      → page.is_allowed ≡ true
      → IsSound time_to_value convert parse is_string_ascii reads_enabled page
      → IsSoundIf time_to_value convert parse is_string_ascii reads_enabled
          (handle_delete_subscription time_to_value convert parse is_string_ascii args page)
  unfolding handle_delete_subscription
  handle_delete_subscription-IsSound [] page allowed sound = tt
  handle_delete_subscription-IsSound (url ∷ args) page allowed sound =
      with_url-IsSound time_to_value convert parse is_string_ascii reads_enabled url page
        (λ u.
          then_refresh time_to_value convert parse is_string_ascii page
            (some (delete_subscription page.manager u)))
        sound
        (λ u.
          then_refresh-IsSound time_to_value convert parse is_string_ascii reads_enabled page
            (some (delete_subscription page.manager u)) allowed sound
            (apply-Matches time_to_value convert parse reads_enabled (deletes u) page.manager
              sound.matches))

  handle_refresh_subscription-IsSound :
      (args : List Argument) (page : Page Storage)
      → IsSound time_to_value convert parse is_string_ascii reads_enabled page
      → IsSoundIf time_to_value convert parse is_string_ascii reads_enabled
          (handle_refresh_subscription time_to_value convert parse is_string_ascii args page)
  unfolding handle_refresh_subscription
  handle_refresh_subscription-IsSound [] page sound = tt
  handle_refresh_subscription-IsSound (url ∷ args) page sound =
      with_url-IsSound time_to_value convert parse is_string_ascii reads_enabled url page
        (λ u. some (
          put_manager time_to_value convert parse is_string_ascii page
            (refresh_subscription page.manager u true)))
        sound
        (λ u.
          put_manager-IsSound time_to_value convert parse is_string_ascii reads_enabled page
            (refresh_subscription page.manager u true) sound
            (apply-Matches time_to_value convert parse reads_enabled (refreshes u true) page.manager
              sound.matches)
            (refresh_subscription-Noticed page.manager u true))

  handle_view_subscription_source-IsSound :
      (args : List Argument) (page : Page Storage)
      → IsSound time_to_value convert parse is_string_ascii reads_enabled page
      → IsSoundIf time_to_value convert parse is_string_ascii reads_enabled
          (handle_view_subscription_source time_to_value convert parse is_string_ascii args page)
  unfolding handle_view_subscription_source
  handle_view_subscription_source-IsSound [] page sound = tt
  handle_view_subscription_source-IsSound (url ∷ args) page sound =
      with_url-IsSound time_to_value convert parse is_string_ascii reads_enabled url page
        (λ u. some (answer_page time_to_value convert parse is_string_ascii (opened_source u) page))
        sound
        (λ u.
          answer-IsSound time_to_value convert parse is_string_ascii reads_enabled (opened_source u)
            page sound)

  handle_set_subscription_enabled-IsSound :
      (args : List Argument) (page : Page Storage)
      → page.is_allowed ≡ true
      → IsSound time_to_value convert parse is_string_ascii reads_enabled page
      → IsSoundIf time_to_value convert parse is_string_ascii reads_enabled
          (handle_set_subscription_enabled time_to_value convert parse is_string_ascii args page)
  unfolding handle_set_subscription_enabled
  handle_set_subscription_enabled-IsSound [] page allowed sound = tt
  handle_set_subscription_enabled-IsSound (text_argument text ∷ []) page allowed sound = tt
  handle_set_subscription_enabled-IsSound (flag_argument flag ∷ []) page allowed sound = sound
  handle_set_subscription_enabled-IsSound (value_argument value ∷ []) page allowed sound = sound
  handle_set_subscription_enabled-IsSound (text_argument text ∷ enabled ∷ args) page allowed sound =
      enable_by-IsSound time_to_value convert parse is_string_ascii reads_enabled
        (text_argument text) enabled page allowed sound
  handle_set_subscription_enabled-IsSound (flag_argument flag ∷ enabled ∷ args) page allowed sound =
      enable_by-IsSound time_to_value convert parse is_string_ascii reads_enabled
        (flag_argument flag) enabled page allowed sound
  handle_set_subscription_enabled-IsSound (value_argument value ∷ enabled ∷ args) page allowed
        sound =
      enable_by-IsSound time_to_value convert parse is_string_ascii reads_enabled
        (value_argument value) enabled page allowed sound

  handle_update_custom_filters-IsSound :
      (args : List Argument) (page : Page Storage)
      → IsSound time_to_value convert parse is_string_ascii reads_enabled page
      → IsSoundIf time_to_value convert parse is_string_ascii reads_enabled
          (handle_update_custom_filters time_to_value convert parse is_string_ascii args page)
  unfolding handle_update_custom_filters
  handle_update_custom_filters-IsSound [] page sound = tt
  handle_update_custom_filters-IsSound (text_argument text ∷ args) page sound = record {
    matches = sound.matches;
    unique = sound.unique;
    current = sound.current;
  }
  handle_update_custom_filters-IsSound (flag_argument flag ∷ args) page sound = sound
  handle_update_custom_filters-IsSound (value_argument value ∷ args) page sound = sound

  pub handle_message-IsSound :
      (message : Message) (args : List Argument) (page : Page Storage)
      → IsSound time_to_value convert parse is_string_ascii reads_enabled page
      → IsSoundIf time_to_value convert parse is_string_ascii reads_enabled
          (handle_message time_to_value convert parse is_string_ascii message args page)
  unfolding handle_message refresh_subscriptions_list handle_get_custom_resources
      handle_get_custom_resource_keys handle_add_custom_resource handle_update_custom_resource
      handle_remove_custom_resource handle_remove_custom_resource_key
  handle_message-IsSound get_filters args page sound =
      answer-IsSound time_to_value convert parse is_string_ascii reads_enabled
        (on_get_custom_filters (get_custom_filters page.custom_filters))
        (allow_javascript time_to_value convert parse is_string_ascii page)
        (allow-IsSound time_to_value convert parse is_string_ascii reads_enabled page sound)
  handle_message-IsSound get_list_subscriptions args page sound = record {
    matches = sound.matches;
    unique = sound.unique;
    current = inr (refl, refl);
  }
  handle_message-IsSound update_filters args page sound =
      handle_update_custom_filters-IsSound args page sound
  handle_message-IsSound submit_new_subscription args page sound =
      handle_submit_new_subscription-IsSound args
        (allow_javascript time_to_value convert parse is_string_ascii page) refl
        (allow-IsSound time_to_value convert parse is_string_ascii reads_enabled page sound)
  handle_message-IsSound set_subscription_enabled args page sound =
      handle_set_subscription_enabled-IsSound args
        (allow_javascript time_to_value convert parse is_string_ascii page) refl
        (allow-IsSound time_to_value convert parse is_string_ascii reads_enabled page sound)
  handle_message-IsSound delete_list args page sound =
      handle_delete_subscription-IsSound args
        (allow_javascript time_to_value convert parse is_string_ascii page) refl
        (allow-IsSound time_to_value convert parse is_string_ascii reads_enabled page sound)
  handle_message-IsSound refresh_list args page sound =
      handle_refresh_subscription-IsSound args
        (allow_javascript time_to_value convert parse is_string_ascii page)
        (allow-IsSound time_to_value convert parse is_string_ascii reads_enabled page sound)
  handle_message-IsSound view_subscription_source args page sound =
      handle_view_subscription_source-IsSound args page sound
  handle_message-IsSound get_resources args page sound =
      with_arguments-IsSound time_to_value convert parse is_string_ascii reads_enabled
        (two_texts args)
        (λ a. handle_get_custom_resources time_to_value convert parse is_string_ascii a page)
        (λ a.
          answer-IsSound time_to_value convert parse is_string_ascii reads_enabled
            (resolved_resources a.0 (get_custom_resources page.provider a.1))
            (allow_javascript time_to_value convert parse is_string_ascii page)
            (allow-IsSound time_to_value convert parse is_string_ascii reads_enabled page sound))
  handle_message-IsSound get_resource_keys args page sound =
      with_arguments-IsSound time_to_value convert parse is_string_ascii reads_enabled
        (one_text args)
        (λ a. handle_get_custom_resource_keys time_to_value convert parse is_string_ascii a page)
        (λ a.
          answer-IsSound time_to_value convert parse is_string_ascii reads_enabled
            (resolved_keys a page.provider.store)
            (allow_javascript time_to_value convert parse is_string_ascii page)
            (allow-IsSound time_to_value convert parse is_string_ascii reads_enabled page sound))
  handle_message-IsSound add_custom_resource args page sound =
      with_arguments-IsSound time_to_value convert parse is_string_ascii reads_enabled
        (two_texts_and_dict args)
        (λ a. handle_add_custom_resource time_to_value convert parse is_string_ascii a page)
        (λ a.
          status-IsSound time_to_value convert parse is_string_ascii reads_enabled a.0 page
            (add_resource is_string_ascii page.provider a.1 a.2).0
            (add_resource is_string_ascii page.provider a.1 a.2).1 sound
            (add_resource-Unique is_string_ascii page.provider a.1 a.2 sound.unique))
  handle_message-IsSound update_custom_resource args page sound =
      with_arguments-IsSound time_to_value convert parse is_string_ascii reads_enabled
        (three_texts_and_dict args)
        (λ a. handle_update_custom_resource time_to_value convert parse is_string_ascii a page)
        (λ a.
          status-IsSound time_to_value convert parse is_string_ascii reads_enabled a.0 page
            (update_resource is_string_ascii page.provider a.1 a.2 a.3).0
            (update_resource is_string_ascii page.provider a.1 a.2 a.3).1 sound
            (update_resource-Unique is_string_ascii page.provider a.1 a.2 a.3 sound.unique))
  handle_message-IsSound remove_custom_resource args page sound =
      with_arguments-IsSound time_to_value convert parse is_string_ascii reads_enabled
        (three_texts args)
        (λ a. handle_remove_custom_resource time_to_value convert parse is_string_ascii a page)
        (λ a.
          status-IsSound time_to_value convert parse is_string_ascii reads_enabled a.0 page
            (remove_resource is_string_ascii page.provider a.1 a.2).0
            (remove_resource is_string_ascii page.provider a.1 a.2).1 sound
            (remove_resource-Unique is_string_ascii page.provider a.1 a.2 sound.unique))
  handle_message-IsSound remove_custom_resource_key args page sound =
      with_arguments-IsSound time_to_value convert parse is_string_ascii reads_enabled
        (two_texts args)
        (λ a. handle_remove_custom_resource_key time_to_value convert parse is_string_ascii a page)
        (λ a.
          status-IsSound time_to_value convert parse is_string_ascii reads_enabled a.0 page
            (remove_key page.provider a.1).0 (remove_key page.provider a.1).1 sound
            (remove_key-Unique is_string_ascii page.provider a.1 sound.unique))
