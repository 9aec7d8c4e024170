-- ===== src/Subscriptions/Examples.antt =====
-- The properties of subscriptions at concrete inputs.
use chromium_adblock.Base.{
  ℕ, ◌≤◌, String, arith, Bool, true, false, Option, none, some, List, [], ◌∷◌, ◌≡◌, refl,
}
use chromium_adblock.Base.Dict.{Dict, find, set, contains}
use chromium_adblock.Web.{Gurl}
use chromium_adblock.Wrapper.Examples.{https_url}
use chromium_adblock.Subscriptions.Info.{
  Value, bool_value, int_value, SubscriptionInfo, subscription_dict, build_info_from_dict, new_info,
}
use chromium_adblock.Subscriptions.Fields.{
  max_expires_hours, parse_expires_with_fallback, read_fields, fields_of,
  read_fields-subscription_dict, read_fields-bounded,
}
use chromium_adblock.Subscriptions.Manager.{Manager, on_update_timer}
use chromium_adblock.Subscriptions.Providers.{MatchesIf}
use chromium_adblock.Subscriptions.Timer.{on_update_timer_downloads}
use chromium_adblock.Subscriptions.Runs.{
  Operation, creates, enables, has_downloaded, timer_fires, deletes, run, run-Matches,
}

-- A time is its number.
abbrev pub time_to_value : ℕ → Value
time_to_value t = int_value t

abbrev flag_of : Option Value → Bool
flag_of (some (bool_value b)) = b
flag_of _ = false

-- A converter that reads `enabled` only.
abbrev pub convert : Dict Value → SubscriptionInfo
convert dict = record (new_info (https_url "")) { enabled = flag_of (find dict "enabled") }

reads_fields :
    (url : Gurl) (attempt success expires : ℕ) (enabled : Bool) (homepage title : Option String)
    → (convert (
        subscription_dict time_to_value (record {
          subscription_url = url;
          last_update_attempt = attempt;
          last_successful_update_attempt = success;
          enabled = enabled;
          homepage = homepage;
          title = title;
          expires = expires;
        }))).enabled
      ≡ enabled
unfolding subscription_dict find set
reads_fields url attempt success expires enabled none none = refl
reads_fields url attempt success expires enabled none (some t) = refl
reads_fields url attempt success expires enabled (some h) none = refl
reads_fields url attempt success expires enabled (some h) (some t) = refl

pub reads_enabled :
    (info : SubscriptionInfo)
    → (convert (subscription_dict time_to_value info)).enabled ≡ info.enabled
reads_enabled info =
    reads_fields info.subscription_url info.last_update_attempt info.last_successful_update_attempt
      info.expires info.enabled info.homepage info.title

abbrev list_url : Gurl
list_url = https_url "list.test"

-- A manager with one list, which is enabled, and one without.
abbrev with_list : Manager
with_list = record {
  has_local_state = true;
  prefs = ("list.test", ("enabled", bool_value true) ∷ []) ∷ [];
  subscriptions = ("list.test", ("enabled", bool_value true) ∷ []) ∷ [];
  subscription_filters_providers = [];
  download_manager = some true;
  downloads = [];
  available = [];
  deleted = [];
  service_events = 0;
}

abbrev empty : Manager
empty = record with_list { prefs = []; subscriptions = [] }

abbrev operations : List Operation
operations =
    creates list_url
    ∷ has_downloaded list_url 5
    ∷ enables list_url false
    ∷ timer_fires 9
    ∷ deletes list_url
    ∷ []

run-Matches_example :
    MatchesIf time_to_value convert reads_enabled
      (run time_to_value convert https_url operations empty)
unfolding find contains
run-Matches_example =
    run-Matches time_to_value convert https_url reads_enabled operations empty refl refl
      (λ key. refl)

abbrev time_of : Option Value → ℕ
time_of (some (int_value t)) = t
time_of _ = 0

-- A converter that reads the times too.
abbrev convert_times : Dict Value → SubscriptionInfo
convert_times dict = record (new_info (https_url "")) {
  enabled = flag_of (find dict "enabled");
  last_update_attempt = time_of (find dict "last_update_attempt");
  last_successful_update_attempt = time_of (find dict "last_successful_update_attempt");
}

abbrev attempts : Bool → ℕ → ℕ → Dict Value
attempts enabled attempt success =
    ("enabled", bool_value enabled)
    ∷ ("last_update_attempt", int_value attempt)
    ∷ ("last_successful_update_attempt", int_value success)
    ∷ []

-- One list is disabled, one was downloaded a moment ago, one failed a moment ago, and one was
-- downloaded long ago.
abbrev four_lists : Manager
four_lists = record with_list {
  prefs =
      ("disabled.test", attempts false 5 5)
      ∷ ("fresh.test", attempts true 999999999998 999999999998)
      ∷ ("failed.test", attempts true 999999999998 5)
      ∷ ("old.test", attempts true 5 5)
      ∷ [];
}

on_update_timer_downloads_example :
    (on_update_timer time_to_value convert_times https_url four_lists 999999999999).downloads
    ≡ (https_url "failed.test", false) ∷ (https_url "old.test", false) ∷ []
unfolding build_info_from_dict find
on_update_timer_downloads_example =
    on_update_timer_downloads time_to_value convert_times https_url four_lists 999999999999 refl

abbrev value_to_time : Option Value → Option ℕ
value_to_time (some (int_value t)) = some t
value_to_time _ = none

abbrev stored_info : SubscriptionInfo
stored_info = record (new_info list_url) { title = some "A list"; expires = 336 }

read_fields-subscription_dict_example :
    read_fields value_to_time (subscription_dict time_to_value stored_info) ≡ fields_of stored_info
read_fields-subscription_dict_example =
    read_fields-subscription_dict time_to_value value_to_time stored_info (λ time. refl)
      (omega arith)

read_fields-bounded_example : 336 ≤ max_expires_hours
unfolding read_fields parse_expires_with_fallback find subscription_dict set
read_fields-bounded_example =
    read_fields-bounded time_to_value value_to_time (subscription_dict time_to_value stored_info)
      336 refl
