-- ===== src/CustomResources/Fresh.antt =====
-- What the loads of AdBlockCustomResourceProvider come to
-- (components/brave_shields/core/browser/ad_block_custom_resource_provider.cc).
use chromium_adblock.Base.{
  ◌<◌, String, Bool, true, false, Option, is_some, is_nil, List, [], ◌∷◌, ◌≡◌, ◌⊎◌,
}
use chromium_adblock.Base.Dict.{Dict}
use chromium_adblock.CustomResources.{Resource}
use chromium_adblock.CustomResources.Changed.{Changed}
use chromium_adblock.CustomResources.Loading.{
  Loading, LoadEvent, changes, loads, default_answers, default_notifies, store_answers,
}

-- A client has called LoadResources, or the default provider has told of its resources.
abbrev pub has_load : List LoadEvent → Bool
has_load [] = false
has_load (changes op ∷ events) = has_load events
has_load (loads ∷ events) = true
has_load (default_answers ∷ events) = has_load events
has_load (default_notifies ∷ events) = true
has_load (store_answers ∷ events) = has_load events

module _ {Storage : Type 0} (extend_resource_storage : Storage → String → Storage)
    (write_json : List Resource → Option String) (is_string_ascii : String → Bool)
    (d : Storage) where
  -- There is a cached storage, or a load that will bring one.
  abbrev HasLoad : Loading Storage → Type 0
  HasLoad l =
      (is_some l.provider.cached_storage ≡ true)
      ⊎ ((is_nil l.asked ≡ false) ⊎ (l.answered < l.provider.reloads))
