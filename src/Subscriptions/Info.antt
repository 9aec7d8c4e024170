-- ===== src/Subscriptions/Info.antt =====
-- SubscriptionInfo and the dictionary that it is stored in (components/brave_shields/content/
-- browser/ad_block_subscription_service_manager.{h,cc}). The times of base, their values and
-- base::JSONValueConverter, which reads the dictionary back, are parameters.
use chromium_adblock.Base.{ℕ, String, Bool, true, Option, none, some, [], if◌then◌else◌}
use chromium_adblock.Base.Dict.{Dict, set}
use chromium_adblock.Web.{Gurl}
use chromium_adblock.Engine.{OptionalString}

-- A base::Value of the dictionary; a time is an opaque text.
pub data Value : Type 0 where
  bool_value : Bool → Value
  int_value : ℕ → Value
  -- the integer -1 - n
  negative_value : ℕ → Value
  string_value : String → Value

pub record SubscriptionInfo : Type 0 where
  pub subscription_url : Gurl
  -- microseconds, 0 for base::Time()
  pub last_update_attempt : ℕ
  pub last_successful_update_attempt : ℕ
  pub enabled : Bool
  pub homepage : Option String
  pub title : Option String
  pub expires : ℕ

-- kSubscriptionDefaultExpiresHours.
abbrev pub default_expires_hours : ℕ
default_expires_hours = 168

-- adblock::FilterListMetadata.
pub record FilterListMetadata : Type 0 where
  pub homepage : OptionalString
  pub title : OptionalString
  pub has_expires_hours : Bool
  pub expires_hours : ℕ

abbrev set_text : Dict Value → String → Option String → Dict Value
set_text d key none = d
set_text d key (some text) = set d key (string_value text)

-- The dictionary that UpdateSubscriptionPrefs stores.
unfoldable pub subscription_dict : (ℕ → Value) → SubscriptionInfo → Dict Value
subscription_dict time_to_value info =
    let timed =
      set
        (set (set [] "enabled" (bool_value info.enabled)) "last_update_attempt"
          (time_to_value info.last_update_attempt))
        "last_successful_update_attempt" (time_to_value info.last_successful_update_attempt) in
    set (set_text (set_text timed "homepage" info.homepage) "title" info.title) "expires"
      (int_value info.expires)

-- BuildInfoFromDict; `convert` reads all fields but the URL.
unfoldable pub build_info_from_dict :
    (Dict Value → SubscriptionInfo) → Gurl → Dict Value → SubscriptionInfo
build_info_from_dict convert sub_url dict = record (convert dict) { subscription_url = sub_url }

-- The subscription that CreateSubscription starts with.
abbrev pub new_info : Gurl → SubscriptionInfo
new_info sub_url = record {
  subscription_url = sub_url;
  last_update_attempt = 0;
  last_successful_update_attempt = 0;
  enabled = true;
  homepage = none;
  title = none;
  expires = default_expires_hours;
}

abbrev first_title : Option String → OptionalString → Option String
first_title (some title) found = some title
first_title none found = if found.has_value then some found.value else none

-- What OnListMetadata changes: a title is kept.
unfoldable pub with_metadata : SubscriptionInfo → FilterListMetadata → SubscriptionInfo
with_metadata info metadata = record info {
  title = first_title info.title metadata.title;
  homepage = if metadata.homepage.has_value then some metadata.homepage.value else none;
  expires = if metadata.has_expires_hours then metadata.expires_hours else default_expires_hours;
}
