-- ===== src/Subscriptions/Fields.antt =====
-- How the fields of a stored subscription are read back: the functions that
-- SubscriptionInfo::RegisterJSONConverter hands to base::JSONValueConverter (components/
-- brave_shields/content/browser/ad_block_subscription_service_manager.cc).
use chromium_adblock.Base.{
  ℕ, ◌≤◌, String, Bool, leb, ◌≡◌, refl, ap, ◌∙◌, Option, none, some, arith, if◌then◌else◌,
}
use chromium_adblock.Base.Dict.{Dict, find, set}
use chromium_adblock.Subscriptions.Info.{
  Value, bool_value, int_value, negative_value, string_value, SubscriptionInfo,
  default_expires_hours, subscription_dict,
}

-- kSubscriptionMaxExpiresHours.
abbrev pub max_expires_hours : ℕ
max_expires_hours = 336

-- ParseOptionalStringField; `none` is a field that cannot be read.
abbrev pub parse_optional_string_field : Option Value → Option (Option String)
parse_optional_string_field none = some none
parse_optional_string_field (some (string_value text)) = some (some text)
parse_optional_string_field (some (bool_value b)) = none
parse_optional_string_field (some (int_value n)) = none
parse_optional_string_field (some (negative_value n)) = none

-- ParseExpiresWithFallback.
unfoldable pub parse_expires_with_fallback : Option Value → Option ℕ
parse_expires_with_fallback none = some default_expires_hours
parse_expires_with_fallback (some (int_value n)) = if leb n max_expires_hours then some n else none
parse_expires_with_fallback (some (negative_value n)) = none
parse_expires_with_fallback (some (bool_value b)) = none
parse_expires_with_fallback (some (string_value text)) = none

-- A field that RegisterBoolField reads.
abbrev pub parse_bool_field : Option Value → Option Bool
parse_bool_field (some (bool_value b)) = some b
parse_bool_field (some (int_value n)) = none
parse_bool_field (some (negative_value n)) = none
parse_bool_field (some (string_value text)) = none
parse_bool_field none = none

-- The fields as RegisterJSONConverter names them; `value_to_time` is base::ValueToTime, on which
-- ParseTimeValue stands.
pub record ReadFields : Type 0 where
  pub last_update_attempt : Option ℕ
  pub last_successful_update_attempt : Option ℕ
  pub enabled : Option Bool
  pub homepage : Option (Option String)
  pub title : Option (Option String)
  pub expires : Option ℕ

unfoldable pub read_fields : (Option Value → Option ℕ) → Dict Value → ReadFields
read_fields value_to_time dict = record {
  last_update_attempt = value_to_time (find dict "last_update_attempt");
  last_successful_update_attempt = value_to_time (find dict "last_successful_update_attempt");
  enabled = parse_bool_field (find dict "enabled");
  homepage = parse_optional_string_field (find dict "homepage");
  title = parse_optional_string_field (find dict "title");
  expires = parse_expires_with_fallback (find dict "expires");
}

-- The fields of a subscription, each read.
abbrev pub fields_of : SubscriptionInfo → ReadFields
fields_of info = record {
  last_update_attempt = some info.last_update_attempt;
  last_successful_update_attempt = some info.last_successful_update_attempt;
  enabled = some info.enabled;
  homepage = some info.homepage;
  title = some info.title;
  expires = some info.expires;
}

abbrev fields : Option ℕ → Option ℕ → Option ℕ → Bool → Option String → Option String → ReadFields
fields attempt success expires enabled homepage title = record {
  last_update_attempt = attempt;
  last_successful_update_attempt = success;
  enabled = some enabled;
  homepage = some homepage;
  title = some title;
  expires = expires;
}

parse_expires_of :
    (n : ℕ) → n ≤ max_expires_hours → parse_expires_with_fallback (some (int_value n)) ≡ some n
unfolding parse_expires_with_fallback
parse_expires_of n short = ground arith

module _ (time_to_value : ℕ → Value) (value_to_time : Option Value → Option ℕ) where
  read_by_texts :
      (info : SubscriptionInfo) (homepage title : Option String)
      → read_fields value_to_time
          (subscription_dict time_to_value (record info { homepage = homepage; title = title }))
        ≡ fields
            (value_to_time (some (time_to_value info.last_update_attempt)))
            (value_to_time (some (time_to_value info.last_successful_update_attempt)))
            (parse_expires_with_fallback (some (int_value info.expires)))
            info.enabled
            homepage
            title
  unfolding read_fields subscription_dict find set
  read_by_texts info none none = refl
  read_by_texts info none (some t) = refl
  read_by_texts info (some h) none = refl
  read_by_texts info (some h) (some t) = refl

  -- Where base::ValueToTime reads what base::TimeToValue writes, and the list is to be looked at
  -- again within fourteen days, every field of a subscription is read back from the dictionary
  -- that is stored for it, a text that is missing included.
  pub read_fields-subscription_dict :
      (info : SubscriptionInfo)
      → ((time : ℕ) → value_to_time (some (time_to_value time)) ≡ some time)
      → info.expires ≤ max_expires_hours
      → read_fields value_to_time (subscription_dict time_to_value info) ≡ fields_of info
  read_fields-subscription_dict info times short =
      read_by_texts info info.homepage info.title
      ∙ ap
          (λ attempt.
            fields attempt
              (value_to_time (some (time_to_value info.last_successful_update_attempt)))
              (parse_expires_with_fallback (some (int_value info.expires))) info.enabled
              info.homepage info.title)
          (times info.last_update_attempt)
      ∙ ap
          (λ success.
            fields (some info.last_update_attempt) success
              (parse_expires_with_fallback (some (int_value info.expires))) info.enabled
              info.homepage info.title)
          (times info.last_successful_update_attempt)
      ∙ ap
          (λ expires.
            fields (some info.last_update_attempt) (some info.last_successful_update_attempt)
              expires info.enabled info.homepage info.title)
          (parse_expires_of info.expires short)

  -- Whatever the dictionary holds, a time to look at the list again that is read from it is at
  -- most fourteen days, so it fits into the sixteen bits of the field.
  pub read_fields-bounded :
      (dict : Dict Value) (hours : ℕ)
      → (read_fields value_to_time dict).expires ≡ some hours
      → hours ≤ max_expires_hours
  unfolding read_fields parse_expires_with_fallback
  read_fields-bounded dict hours e = by_value (find dict "expires") e
    where
      by_value :
          (value : Option Value)
          → parse_expires_with_fallback value ≡ some hours
          → hours ≤ max_expires_hours
      by_value none e = ground arith
      by_value (some (int_value n)) e = ground arith
      by_value (some (negative_value n)) e = ground arith
      by_value (some (bool_value b)) e = ground arith
      by_value (some (string_value text)) e = ground arith
