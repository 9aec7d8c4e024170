-- ===== src/Filters/Examples.antt =====
-- The properties of the providers' manager at concrete inputs.
use chromium_adblock.Base.{ℕ, Bool, true, false, ltb, [], ◌∷◌, ◌≡◌, refl, ap}
use chromium_adblock.Filters.{Manager, are_all_providers_initialized}
use chromium_adblock.Filters.Notices.{list_changed, cache_failed, take_notices, take_notices-copies}

-- Two providers of the default engine and one of the other, as the service has them at startup.
abbrev pub manager : Manager
manager = record {
  default_engine_filters_providers = 3 ∷ 5 ∷ [];
  additional_engine_filters_providers = 9 ∷ [];
  suppress_default_engine_startup_change_notification = true;
  suppress_additional_engine_startup_change_notification = true;
  observers = true ∷ false ∷ [];
}

-- All providers but the last are initialized.
abbrev pub ready : ℕ → Bool
ready p = ltb p 9

take_notices-copies_example :
    (take_notices ready manager true (cache_failed ∷ list_changed ∷ list_changed ∷ [])).1
    ≡ (true, 3 ∷ 5 ∷ []) ∷ (true, 3 ∷ 5 ∷ []) ∷ []
unfolding are_all_providers_initialized
take_notices-copies_example =
    ap (λ r. r.1)
      (take_notices-copies ready manager true (cache_failed ∷ list_changed ∷ list_changed ∷ []) refl
        refl)
