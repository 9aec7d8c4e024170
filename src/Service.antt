-- ===== src/Service.antt =====
-- AdBlockService and its SourceProviderObserver (components/brave_shields/content/browser/
-- ad_block_service.{h,cc}): how the engines are filled from the cached DAT files and the filter
-- lists. What runs on the engines' task runner is a job, whose result is the reply that the
-- service gets; LoadResources of the resource provider is recorded, and answers by
-- `on_all_loaded`.
pub mod Cache
pub mod Examples
use chromium_adblock.Base.{
  ℕ, String, Bool, true, false, Option, none, some, is_some, List, [], ◌∷◌, ◌++◌, is_nil,
  if◌then◌else◌,
}
use chromium_adblock.Web.{Gurl}
use chromium_adblock.Engine.{EngineApi, DatFileDataBuffer}
use chromium_adblock.Wrapper.{EngineWrapper, load, load_dat, wrapper_serialize}
use chromium_adblock.Filters.{FilterSetLoad, Manager, force_notify_observer}

pub data FilterListLoadResult : Type 0 where
  failed loaded resources_only : FilterListLoadResult

-- What the engines' task runner is given.
pub data Job (FilterSet Storage : Type 0) : Type 0 where
  load_dat_job : Bool → DatFileDataBuffer → Storage → Job FilterSet Storage
  -- the engine, whether it is to be cached, the filter set and the resources
  load_job : Bool → Bool → Option FilterSet → Storage → Job FilterSet Storage

pub data Reply : Type 0 where
  dat_loaded : Bool → Bool → Reply
  engine_loaded : Bool → FilterListLoadResult → Option DatFileDataBuffer → Reply

-- What the service's observers are told.
pub data Told : Type 0 where
  told_dat_loaded : Bool → Bool → Told
  told_filter_list_loaded : Bool → FilterListLoadResult → Told

pub record Service (FilterSet Storage : Type 0) : Type 0 where
  pub filters_provider_manager : Manager
  pub default_dat_loaded : Bool
  pub additional_dat_loaded : Bool
  pub default_filter_list_loaded : Bool
  pub additional_filter_list_loaded : Bool
  -- effects, the oldest first
  pub jobs : List (Job FilterSet Storage)
  pub loads : List FilterSetLoad
  pub resource_loads : List (Bool × Option FilterSet)
  pub told : List Told
  pub written : List (Bool × DatFileDataBuffer)

-- The reply is the engine's own word where there is a filter set.
abbrev pub load_result : {FilterSet : Type 0} → Option FilterSet → Bool → FilterListLoadResult
load_result filter_set false = failed
load_result none true = resources_only
load_result (some filter_set) true = loaded

abbrev is_resources_only : FilterListLoadResult → Bool
is_resources_only resources_only = true
is_resources_only _ = false

module _ {Client FilterSet Storage Policy : Type 0}
    (api : EngineApi Client FilterSet Storage Policy) (same_domain_or_host : Gurl → String → Bool)
    (parse : String → Gurl) where
  -- The tasks of OnResourcesLoaded, on the engines.
  unfoldable pub run_job :
      EngineWrapper Client Policy → Job FilterSet Storage → EngineWrapper Client Policy × Reply
  run_job w (load_dat_job b dat storage) =
      let (w', success) = load_dat api same_domain_or_host parse w b dat storage in
      (w', dat_loaded b success)
  run_job w (load_job b cache filter_set storage) =
      let (w', success) = load api same_domain_or_host parse w b filter_set storage in
      let result = load_result filter_set success in
      (
        w',
        engine_loaded b result (
            if success
            then (if is_some filter_set
                then (if cache
                    then some (wrapper_serialize api same_domain_or_host parse w' b)
                    else none)
                else none)
            else none),
      )

module _ {FilterSet Storage : Type 0} where
  -- OnResourcesLoaded; `dat_cache` is the feature kAdblockDATCache.
  unfoldable pub on_resources_loaded :
      Bool
      → Service FilterSet Storage
      → Bool
      → Option DatFileDataBuffer
      → Option FilterSet
      → Storage
      → Service FilterSet Storage
  on_resources_loaded dat_cache s b (some dat) filter_set storage = record s {
    jobs = s.jobs ++ load_dat_job b dat storage ∷ [];
  }
  on_resources_loaded dat_cache s b none filter_set storage = record s {
    jobs = s.jobs ++ load_job b dat_cache filter_set storage ∷ [];
  }

  -- SourceProviderObserver::LoadResources, OnDATFileRead, OnResourcesLoaded and OnAllLoaded.
  unfoldable pub load_resources :
      Service FilterSet Storage → Bool → Option FilterSet → Service FilterSet Storage
  load_resources s b filter_set = record s {
    resource_loads = s.resource_loads ++ (b, filter_set) ∷ [];
  }

  unfoldable pub on_dat_file_read :
      Bool
      → Storage
      → Service FilterSet Storage
      → Bool
      → DatFileDataBuffer
      → Service FilterSet Storage
  unfolding on_resources_loaded load_resources
  on_dat_file_read dat_cache empty_storage s b dat =
      load_resources (on_resources_loaded dat_cache s b (some dat) none empty_storage) b none

  unfoldable pub source_on_resources_loaded :
      Bool → Service FilterSet Storage → Bool → Storage → Service FilterSet Storage
  unfolding on_resources_loaded
  source_on_resources_loaded dat_cache s b storage =
      on_resources_loaded dat_cache s b none none storage

  unfoldable pub on_all_loaded :
      Bool
      → Service FilterSet Storage
      → Bool
      → Option FilterSet
      → Storage
      → Service FilterSet Storage
  unfolding on_resources_loaded
  on_all_loaded dat_cache s b filter_set storage =
      on_resources_loaded dat_cache s b none filter_set storage

  abbrev mark_dat_loaded : Service FilterSet Storage → Bool → Service FilterSet Storage
  mark_dat_loaded s true = record s { default_dat_loaded = true }
  mark_dat_loaded s false = record s { additional_dat_loaded = true }

  abbrev mark_filter_list_loaded : Service FilterSet Storage → Bool → Service FilterSet Storage
  mark_filter_list_loaded s true = record s { default_filter_list_loaded = true }
  mark_filter_list_loaded s false = record s { additional_filter_list_loaded = true }

  -- `ready` tells which filters providers are initialized.
  unfoldable pub on_dat_loaded :
      (ℕ → Bool) → Service FilterSet Storage → Bool → Bool → Service FilterSet Storage
  unfolding force_notify_observer
  on_dat_loaded ready s b success =
      let marked = mark_dat_loaded s b in
      let (manager, more) = force_notify_observer ready s.filters_provider_manager b b in
      let after =
        if success
        then marked
        else record marked { filters_provider_manager = manager; loads = marked.loads ++ more } in
      record after { told = after.told ++ told_dat_loaded b success ∷ [] }

  abbrev write_dat :
      Service FilterSet Storage → Bool → Option DatFileDataBuffer → Service FilterSet Storage
  write_dat s b none = s
  write_dat s b (some dat) =
      if is_nil dat then s else record s { written = s.written ++ (b, dat) ∷ [] }

  unfoldable pub on_engine_loaded :
      Service FilterSet Storage
      → Bool
      → FilterListLoadResult
      → Option DatFileDataBuffer
      → Service FilterSet Storage
  on_engine_loaded s b result dat =
      let marked = mark_filter_list_loaded s b in
      let after =
        if is_resources_only result
        then s
        else record marked { told = marked.told ++ told_filter_list_loaded b result ∷ [] } in
      write_dat after b dat

  abbrev pub on_reply : (ℕ → Bool) → Service FilterSet Storage → Reply → Service FilterSet Storage
  on_reply ready s (dat_loaded b success) = on_dat_loaded ready s b success
  on_reply ready s (engine_loaded b result dat) = on_engine_loaded s b result dat

  abbrev read_or_fall_back :
      Bool
      → Storage
      → (ℕ → Bool)
      → Service FilterSet Storage
      → Bool
      → Option DatFileDataBuffer
      → Service FilterSet Storage
  read_or_fall_back dat_cache empty_storage ready s b none = on_dat_loaded ready s b false
  read_or_fall_back dat_cache empty_storage ready s b (some dat) =
      on_dat_file_read dat_cache empty_storage s b dat

  unfoldable pub on_read_cached_dat_files :
      Bool
      → Storage
      → (ℕ → Bool)
      → Service FilterSet Storage
      → Option DatFileDataBuffer
      → Option DatFileDataBuffer
      → Service FilterSet Storage
  unfolding on_dat_file_read on_dat_loaded
  on_read_cached_dat_files dat_cache empty_storage ready s default_dat additional_dat =
      read_or_fall_back dat_cache empty_storage ready
        (read_or_fall_back dat_cache empty_storage ready s true default_dat) false additional_dat
