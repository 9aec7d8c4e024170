-- ===== src/Filters.antt =====
-- AdBlockFiltersProviderManager (components/brave_shields/core/browser/
-- ad_block_filters_provider_manager.{h,cc}), with the observers it has from AdBlockFiltersProvider
-- (ad_block_filters_provider.cc) and their OnChanged, which is the one of
-- AdBlockService::SourceProviderObserver (content/browser/ad_block_service.cc).
-- A provider is named by its address. Whether it is initialized is its own state, which `ready`
-- tells at the time of a call.
pub mod Notices
pub mod Examples
use chromium_adblock.Base.{
  ℕ, Bool, true, false, List, [], ◌∷◌, ◌++◌, ◌==◌, ltb, not, all, any, is_nil, if◌then◌else◌,
}

-- An engine whose lists are loaded, true for the default one, and the providers that are asked, in
-- order.
abbrev pub FilterSetLoad : Type 0
FilterSetLoad = Bool × List ℕ

pub record Manager : Type 0 where
  pub default_engine_filters_providers : List ℕ
  pub additional_engine_filters_providers : List ℕ
  pub suppress_default_engine_startup_change_notification : Bool
  pub suppress_additional_engine_startup_change_notification : Bool
  -- `engine_is_default_` of each observer
  pub observers : List Bool

-- AdBlockFiltersProviderManager(), with the feature kAdblockDATCache.
unfoldable pub new : Bool → Manager
new dat_cache = record {
  default_engine_filters_providers = [];
  additional_engine_filters_providers = [];
  suppress_default_engine_startup_change_notification = dat_cache;
  suppress_additional_engine_startup_change_notification = dat_cache;
  observers = [];
}

-- flat_set::insert, in the order of the addresses.
abbrev pub insert : ℕ → List ℕ → List ℕ
insert p [] = p ∷ []
insert p (q ∷ qs) = if ltb p q then p ∷ q ∷ qs else if p == q then q ∷ qs else q ∷ insert p qs

-- flat_set::erase of what find has found; a provider that is not there is left.
abbrev pub erase : ℕ → List ℕ → List ℕ
erase p [] = []
erase p (q ∷ qs) = if p == q then qs else q ∷ erase p qs

abbrev pub same_engine : Bool → Bool → Bool
same_engine true other = other
same_engine false other = not other

abbrev pub get_providers : Manager → Bool → List ℕ
get_providers m true = m.default_engine_filters_providers
get_providers m false = m.additional_engine_filters_providers

abbrev set_providers : Manager → Bool → List ℕ → Manager
set_providers m true ps = record m { default_engine_filters_providers = ps }
set_providers m false ps = record m { additional_engine_filters_providers = ps }

abbrev pub is_suppressed : Manager → Bool → Bool
is_suppressed m true = m.suppress_default_engine_startup_change_notification
is_suppressed m false = m.suppress_additional_engine_startup_change_notification

abbrev pub clear_suppressed : Manager → Bool → Manager
clear_suppressed m true = record m { suppress_default_engine_startup_change_notification = false }
clear_suppressed m false = record m {
  suppress_additional_engine_startup_change_notification = false;
}

-- SourceProviderObserver::OnChanged, up to the tasks that LoadFilterSetForEngine posts.
unfoldable pub source_on_changed : Manager → Bool → Bool → List FilterSetLoad
source_on_changed m engine_is_default is_default_engine =
    if same_engine engine_is_default is_default_engine
    then (is_default_engine, get_providers m is_default_engine) ∷ []
    else []

abbrev pub notify_each : Manager → Bool → List Bool → List FilterSetLoad
notify_each m b [] = []
notify_each m b (o ∷ os) = source_on_changed m o b ++ notify_each m b os

-- NotifyObservers.
unfoldable pub notify_observers : Manager → Bool → List FilterSetLoad
unfolding source_on_changed
notify_observers m b = notify_each m b m.observers

-- AddObserver and RemoveObserver of the manager; an observer is known by its engine, of which
-- there is one each.
unfoldable pub add_observer : Manager → Bool → Manager
add_observer m o =
    if any (same_engine o) m.observers then m else record m { observers = m.observers ++ o ∷ [] }

unfoldable pub add_provider : Manager → ℕ → Bool → Manager
add_provider m p b = set_providers m b (insert p (get_providers m b))

-- The observers are told whatever the providers that are left have done.
unfoldable pub remove_provider : Manager → ℕ → Bool → Manager × List FilterSetLoad
unfolding notify_observers
remove_provider m p b =
    let m' = set_providers m b (erase p (get_providers m b)) in (m', notify_observers m' b)

-- MaybeConsumeEngineStartupChangeNotification.
unfoldable pub maybe_consume : Manager → Bool → Manager × Bool
maybe_consume m b = if is_suppressed m b then (clear_suppressed m b, true) else (m, false)

module _ (ready : ℕ → Bool) where
  unfoldable pub are_all_providers_initialized : Manager → Bool → Bool
  are_all_providers_initialized m b =
      if is_nil (get_providers m b) then false else all ready (get_providers m b)

  -- MaybeNotifyObserver, ForceNotifyObserver and OnChanged; `o` is the observer's engine.
  unfoldable pub maybe_notify_observer : Manager → Bool → Bool → List FilterSetLoad
  unfolding source_on_changed
  maybe_notify_observer m o b =
      if are_all_providers_initialized m b then source_on_changed m o b else []

  unfoldable pub force_notify_observer : Manager → Bool → Bool → Manager × List FilterSetLoad
  unfolding source_on_changed maybe_consume
  force_notify_observer m o b =
      let (m', consumed) = maybe_consume m b in
      if consumed
      then (m', [])
      else if are_all_providers_initialized m' b
      then (m', source_on_changed m' o b)
      else (m', [])

  unfoldable pub on_changed : Manager → Bool → Manager × List FilterSetLoad
  unfolding notify_observers maybe_consume
  on_changed m b =
      if not (are_all_providers_initialized m b)
      then (m, [])
      else let (m', consumed) = maybe_consume m b in
        if consumed then (m', []) else (m', notify_observers m' b)
