-- ===== src/Settings/Examples.antt =====
-- The property of the settings page at a concrete input.
use chromium_adblock.Base.{
  String, Bool, true, false, ◌≡◌, refl, Option, none, some, is_some, List, [], ◌∷◌,
}
use chromium_adblock.Base.Dict.{find, set, contains}
use chromium_adblock.CustomResources.{add_resource, add_resource_internal, get_custom_resources}
use chromium_adblock.CustomResources.Examples.{scriptlet}
use chromium_adblock.Wrapper.Examples.{https_url}
use chromium_adblock.Subscriptions.Manager.{
  Manager, create_subscription, enable_subscription, get_info, on_subscription_download_failure,
  update_subscription_prefs, start_download,
}
use chromium_adblock.Subscriptions.Info.{subscription_dict, build_info_from_dict}
use chromium_adblock.Subscriptions.Examples.{time_to_value, convert, reads_enabled}
use chromium_adblock.Settings.{
  text_argument, flag_argument, value_argument, submit_new_subscription, set_subscription_enabled,
  delete_list, get_list_subscriptions, add_custom_resource, Page, PageEvent, sends, fails_download,
  run_page, page_step, handle_message, refresh_subscriptions_list, handle_submit_new_subscription,
  handle_set_subscription_enabled, handle_delete_subscription, handle_add_custom_resource,
}
use chromium_adblock.Settings.Sound.{IsSoundIf}
use chromium_adblock.Settings.Runs.{run_page-IsSound}

abbrev services : Manager
services = record {
  has_local_state = true;
  prefs = [];
  subscriptions = [];
  subscription_filters_providers = [];
  download_manager = some true;
  downloads = [];
  available = [];
  deleted = [];
  service_events = 0;
}

abbrev any_ascii : String → Bool
any_ascii text = true

abbrev settings : Page (List String)
settings = record {
  manager = services;
  custom_filters = record { local_state = some ""; changes = 0 };
  provider = record { store = []; cached_storage = none; changes = 0; reloads = 0 };
  is_allowed = false;
  shown = none;
  answers = [];
}

abbrev page_visit : List PageEvent
page_visit =
    sends get_list_subscriptions []
    ∷ sends submit_new_subscription (text_argument "list.test" ∷ [])
    ∷ fails_download (https_url "list.test") 5
    ∷ sends set_subscription_enabled (text_argument "list.test" ∷ flag_argument false ∷ [])
    ∷ sends add_custom_resource (
        text_argument "1"
        ∷ text_argument "SCRIPTLETS"
        ∷ value_argument (scriptlet "user-a.js")
        ∷ [])
    ∷ sends delete_list (flag_argument true ∷ [])
    ∷ []

run_page-IsSound_example :
    (is_some (run_page time_to_value convert https_url any_ascii page_visit settings) ≡ true)
    × IsSoundIf time_to_value convert https_url any_ascii reads_enabled
        (run_page time_to_value convert https_url any_ascii page_visit settings)
unfolding page_step handle_message refresh_subscriptions_list handle_submit_new_subscription
    handle_set_subscription_enabled handle_delete_subscription handle_add_custom_resource
    create_subscription enable_subscription get_info on_subscription_download_failure
    update_subscription_prefs start_download subscription_dict build_info_from_dict find set
    contains add_resource add_resource_internal get_custom_resources
run_page-IsSound_example =
    run_page-IsSound time_to_value convert https_url any_ascii reads_enabled page_visit settings
      (refl, refl, λ key. refl) (λ key. refl) refl

abbrev is_shown : {A : Type 0} → Option (Page A) → Bool
is_shown none = false
is_shown (some page) = is_some page.shown

-- The run has a result, and the page has its list.
page_visit_shown :
    is_shown (run_page time_to_value convert https_url any_ascii page_visit settings) ≡ true
unfolding run_page page_step handle_message refresh_subscriptions_list
    handle_submit_new_subscription handle_set_subscription_enabled handle_delete_subscription
    handle_add_custom_resource create_subscription enable_subscription get_info
    on_subscription_download_failure update_subscription_prefs start_download subscription_dict
    build_info_from_dict find set contains add_resource add_resource_internal get_custom_resources
page_visit_shown = refl
