-- ===== src/Settings.antt =====
-- AdblockDOMHandler, the messages of the settings page (chrome/browser/ui/webui/
-- brave_adblock_ui.cc), over the services that they go to. A message that fails a CHECK, or reads
-- an argument that is not there, has no result.
pub mod Noticed
pub mod Sound
pub mod Arguments
pub mod Served
pub mod Messages
pub mod Runs
pub mod Examples
use chromium_adblock.Base.{
  ℕ, String, Bool, true, false, ltb, Option, none, some, List, [], ◌∷◌, ◌++◌, if◌then◌else◌,
}
use chromium_adblock.Base.Dict.{Dict}
use chromium_adblock.Web.{Gurl}
use chromium_adblock.CustomResources.{
  ErrorCode, Resource, Provider, get_custom_resources, remove_key, add_resource, update_resource,
  remove_resource,
}
use chromium_adblock.DomainBlock.{CustomFilters, get_custom_filters, update_custom_filters}
use chromium_adblock.Subscriptions.Info.{
  Value, SubscriptionInfo, FilterListMetadata, build_info_from_dict,
}
use chromium_adblock.Subscriptions.Manager.{
  Manager, refresh_subscription, delete_subscription, create_subscription, enable_subscription,
  on_list_metadata, on_subscription_download_failure, on_subscription_downloaded, on_update_timer,
}

-- An argument of a message.
pub data Argument : Type 0 where
  text_argument : String → Argument
  flag_argument : Bool → Argument
  value_argument : Resource → Argument

pub data Message : Type 0 where
  get_filters get_list_subscriptions update_filters submit_new_subscription : Message
  set_subscription_enabled delete_list refresh_list view_subscription_source : Message
  get_resources get_resource_keys add_custom_resource update_custom_resource : Message
  remove_custom_resource remove_custom_resource_key : Message

-- A subscription as the page shows it.
pub record Row : Type 0 where
  pub subscription_url : String
  pub enabled : Bool
  pub last_update_attempt : ℕ
  pub last_successful_update_attempt : ℕ
  pub homepage : Option String
  pub title : Option String

-- What the page is told besides the subscriptions: the custom filters, and the answers to the
-- promises of its scripts.
pub data Answer : Type 0 where
  on_get_custom_filters : String → Answer
  resolved_status : String → ErrorCode → Answer
  resolved_resources : String → List Resource → Answer
  resolved_keys : String → Dict (List Resource) → Answer
  opened_source : Gurl → Answer

-- `is_allowed` is IsJavascriptAllowed, with which the subscriptions are observed; `shown` is the
-- last list of subscriptions that the page was given.
pub record Page (Storage : Type 0) : Type 0 where
  pub manager : Manager
  pub custom_filters : CustomFilters
  pub provider : Provider Storage
  pub is_allowed : Bool
  pub shown : Option (List Row)
  pub answers : List Answer

-- What happens to a page: a message, what the manager does on its own, and that its scripts are
-- disallowed, as when it is left.
pub data PageEvent : Type 0 where
  sends : Message → List Argument → PageEvent
  finds_metadata : Gurl → FilterListMetadata → PageEvent
  downloads_list fails_download : Gurl → ℕ → PageEvent
  updates : ℕ → PageEvent
  leaves : PageEvent

-- The CHECKs on arguments.
abbrev pub one_text : List Argument → Option String
one_text (text_argument a ∷ []) = some a
one_text _ = none

abbrev pub two_texts : List Argument → Option (String × String)
two_texts (text_argument a ∷ text_argument b ∷ []) = some (a, b)
two_texts _ = none

abbrev pub three_texts : List Argument → Option (String × String × String)
three_texts (text_argument a ∷ text_argument b ∷ text_argument c ∷ []) = some (a, b, c)
three_texts _ = none

abbrev pub two_texts_and_dict : List Argument → Option (String × String × Resource)
two_texts_and_dict (text_argument a ∷ text_argument b ∷ value_argument value ∷ []) =
    if value.is_dict then some (a, b, value) else none
two_texts_and_dict _ = none

abbrev pub three_texts_and_dict : List Argument → Option (String × String × String × Resource)
three_texts_and_dict
      (text_argument a ∷ text_argument b ∷ text_argument c ∷ value_argument value ∷ []) =
    if value.is_dict then some (a, b, c, value) else none
three_texts_and_dict _ = none

module _ (convert : Dict Value → SubscriptionInfo) (parse : String → Gurl) where
  abbrev pub row_of : String → Dict Value → Row
  row_of key dict =
      let info = build_info_from_dict convert (parse key) dict in
      record {
        subscription_url = info.subscription_url.spec;
        enabled = info.enabled;
        last_update_attempt = info.last_update_attempt;
        last_successful_update_attempt = info.last_successful_update_attempt;
        homepage = info.homepage;
        title = info.title;
      }

  -- GetSubscriptions, as rows.
  abbrev pub rows_of : Dict (Dict Value) → List Row
  rows_of [] = []
  rows_of ((key, dict) ∷ entries) = row_of key dict ∷ rows_of entries

module _ (time_to_value : ℕ → Value) (convert : Dict Value → SubscriptionInfo)
    (parse : String → Gurl) (is_string_ascii : String → Bool) {Storage : Type 0} where
  unfoldable pub refresh_subscriptions_list : Page Storage → Page Storage
  refresh_subscriptions_list page = record page {
    shown = some (rows_of convert parse page.manager.subscriptions);
  }

  abbrev pub allow_javascript : Page Storage → Page Storage
  allow_javascript page = record page { is_allowed = true }

  abbrev pub answer_page : Answer → Page Storage → Page Storage
  answer_page answer page = record page { answers = page.answers ++ answer ∷ [] }

  -- OnServiceUpdateEvent, when the manager has told its observers.
  abbrev pub after_service_event : ℕ → Page Storage → Page Storage
  after_service_event events page =
      if ltb events page.manager.service_events
      then (if page.is_allowed then refresh_subscriptions_list page else page)
      else page

  abbrev pub put_manager : Page Storage → Manager → Page Storage
  put_manager page m = after_service_event page.manager.service_events (record page { manager = m })

  abbrev pub then_refresh : Page Storage → Option Manager → Option (Page Storage)
  then_refresh page none = none
  then_refresh page (some m) = some (refresh_subscriptions_list (record page { manager = m }))

  -- The URL of a message, where it is a valid one.
  abbrev pub with_url :
      Argument → Page Storage → (Gurl → Option (Page Storage)) → Option (Page Storage)
  with_url (text_argument text) page use_url =
      if (parse text).is_valid then use_url (parse text) else some page
  with_url (flag_argument flag) page use_url = some page
  with_url (value_argument value) page use_url = some page

  unfoldable pub handle_submit_new_subscription :
      List Argument → Page Storage → Option (Page Storage)
  handle_submit_new_subscription [] page = none
  handle_submit_new_subscription (url ∷ args) page =
      with_url url page (λ url.
        then_refresh page (some (create_subscription time_to_value convert page.manager url)))

  abbrev pub enable_by : Argument → Argument → Page Storage → Option (Page Storage)
  enable_by url (flag_argument enabled) page = with_url url page (λ url.
      then_refresh page (enable_subscription time_to_value convert page.manager url enabled))
  enable_by url (text_argument text) page = some page
  enable_by url (value_argument value) page = some page

  -- The second argument is only read where the first is a text.
  unfoldable pub handle_set_subscription_enabled :
      List Argument → Page Storage → Option (Page Storage)
  handle_set_subscription_enabled [] page = none
  handle_set_subscription_enabled (text_argument text ∷ []) page = none
  handle_set_subscription_enabled (flag_argument flag ∷ []) page = some page
  handle_set_subscription_enabled (value_argument value ∷ []) page = some page
  handle_set_subscription_enabled (url ∷ enabled ∷ args) page = enable_by url enabled page

  unfoldable pub handle_delete_subscription : List Argument → Page Storage → Option (Page Storage)
  handle_delete_subscription [] page = none
  handle_delete_subscription (url ∷ args) page =
      with_url url page (λ url. then_refresh page (some (delete_subscription page.manager url)))

  unfoldable pub handle_refresh_subscription : List Argument → Page Storage → Option (Page Storage)
  handle_refresh_subscription [] page = none
  handle_refresh_subscription (url ∷ args) page =
      with_url url page
        (λ url. some (put_manager page (refresh_subscription page.manager url true)))

  -- HandleViewSubscriptionSource; GetListTextFileUrl is known by the list's URL.
  unfoldable pub handle_view_subscription_source :
      List Argument → Page Storage → Option (Page Storage)
  handle_view_subscription_source [] page = none
  handle_view_subscription_source (url ∷ args) page =
      with_url url page (λ url. some (answer_page (opened_source url) page))

  unfoldable pub handle_update_custom_filters : List Argument → Page Storage → Option (Page Storage)
  handle_update_custom_filters (text_argument text ∷ args) page =
      some (record page { custom_filters = (update_custom_filters page.custom_filters text).0 })
  handle_update_custom_filters (flag_argument flag ∷ args) page = some page
  handle_update_custom_filters (value_argument value ∷ args) page = some page
  handle_update_custom_filters [] page = none

  -- OnResourceUpdateStatus.
  abbrev pub on_resource_update_status :
      String → Page Storage → Provider Storage × ErrorCode → Page Storage
  on_resource_update_status id page (p, code) =
      answer_page (resolved_status id code) (allow_javascript (record page { provider = p }))

  -- A message that CHECKs its arguments: what they are, if they are that.
  abbrev pub with_arguments : {A : Type 0} → Option A → (A → Page Storage) → Option (Page Storage)
  with_arguments none use_arguments = none
  with_arguments (some arguments) use_arguments = some (use_arguments arguments)

  unfoldable pub handle_get_custom_resources : String × String → Page Storage → Page Storage
  handle_get_custom_resources (id, key) page =
      answer_page (resolved_resources id (get_custom_resources page.provider key))
        (allow_javascript page)

  unfoldable pub handle_get_custom_resource_keys : String → Page Storage → Page Storage
  handle_get_custom_resource_keys id page =
      answer_page (resolved_keys id page.provider.store) (allow_javascript page)

  unfoldable pub handle_add_custom_resource :
      String × String × Resource → Page Storage → Page Storage
  handle_add_custom_resource (id, key, value) page =
      on_resource_update_status id page (add_resource is_string_ascii page.provider key value)

  unfoldable pub handle_update_custom_resource :
      String × String × String × Resource → Page Storage → Page Storage
  handle_update_custom_resource (id, key, old_name, value) page =
      on_resource_update_status id page
        (update_resource is_string_ascii page.provider key old_name value)

  unfoldable pub handle_remove_custom_resource :
      String × String × String → Page Storage → Page Storage
  handle_remove_custom_resource (id, key, name) page =
      on_resource_update_status id page (remove_resource is_string_ascii page.provider key name)

  unfoldable pub handle_remove_custom_resource_key : String × String → Page Storage → Page Storage
  handle_remove_custom_resource_key (id, key) page =
      on_resource_update_status id page (remove_key page.provider key)

  -- RegisterMessages.
  unfoldable pub handle_message : Message → List Argument → Page Storage → Option (Page Storage)
  unfolding handle_submit_new_subscription handle_set_subscription_enabled
      handle_delete_subscription handle_refresh_subscription handle_view_subscription_source
      handle_update_custom_filters refresh_subscriptions_list handle_get_custom_resources
      handle_get_custom_resource_keys handle_add_custom_resource handle_update_custom_resource
      handle_remove_custom_resource handle_remove_custom_resource_key
  handle_message get_filters args page = some (
      answer_page (on_get_custom_filters (get_custom_filters page.custom_filters))
        (allow_javascript page))
  handle_message get_list_subscriptions args page =
      some (refresh_subscriptions_list (allow_javascript page))
  handle_message update_filters args page = handle_update_custom_filters args page
  handle_message submit_new_subscription args page =
      handle_submit_new_subscription args (allow_javascript page)
  handle_message set_subscription_enabled args page =
      handle_set_subscription_enabled args (allow_javascript page)
  handle_message delete_list args page = handle_delete_subscription args (allow_javascript page)
  handle_message refresh_list args page = handle_refresh_subscription args (allow_javascript page)
  handle_message view_subscription_source args page = handle_view_subscription_source args page
  handle_message get_resources args page =
      with_arguments (two_texts args) (λ a. handle_get_custom_resources a page)
  handle_message get_resource_keys args page =
      with_arguments (one_text args) (λ a. handle_get_custom_resource_keys a page)
  handle_message add_custom_resource args page =
      with_arguments (two_texts_and_dict args) (λ a. handle_add_custom_resource a page)
  handle_message update_custom_resource args page =
      with_arguments (three_texts_and_dict args) (λ a. handle_update_custom_resource a page)
  handle_message remove_custom_resource args page =
      with_arguments (three_texts args) (λ a. handle_remove_custom_resource a page)
  handle_message remove_custom_resource_key args page =
      with_arguments (two_texts args) (λ a. handle_remove_custom_resource_key a page)

  unfoldable pub page_step : PageEvent → Page Storage → Option (Page Storage)
  unfolding handle_message
  page_step (sends message args) page = handle_message message args page
  page_step (finds_metadata url metadata) page =
      some (put_manager page (on_list_metadata time_to_value convert page.manager url metadata))
  page_step (downloads_list url now) page =
      some
        (put_manager page (on_subscription_downloaded time_to_value convert page.manager url now))
  page_step (fails_download url now) page = some (
      put_manager page
        (on_subscription_download_failure time_to_value convert page.manager url now))
  page_step (updates now) page =
      some (put_manager page (on_update_timer time_to_value convert parse page.manager now))
  page_step leaves page = some (record page { is_allowed = false; shown = none })

  abbrev pub run_page_from : List PageEvent → Option (Page Storage) → Option (Page Storage)
  run_page_from [] page = page
  run_page_from (event ∷ events) none = none
  run_page_from (event ∷ events) (some page) = run_page_from events (page_step event page)

  unfoldable pub run_page : List PageEvent → Page Storage → Option (Page Storage)
  run_page events page = run_page_from events (some page)
