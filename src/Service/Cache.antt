-- ===== src/Service/Cache.antt =====
-- What an engine's cached DAT file decides at startup, and when one is written (components/
-- brave_shields/content/browser/ad_block_service.cc).
use mathlib.Core.List.{append-nil}
use chromium_adblock.Base.{
  ℕ, String, Bool, true, false, not, ◌&&◌, Option, none, some, is_some, [], ◌∷◌, ◌++◌, ◌≡◌, refl,
  sym, is_nil, if◌then◌else◌,
}
use chromium_adblock.Web.{Gurl}
use chromium_adblock.Engine.{EngineApi, DatFileDataBuffer, on_dat_loaded as engine_on_dat_loaded}
use chromium_adblock.Wrapper.{EngineWrapper, load, wrapper_serialize}
use chromium_adblock.Service.{
  load_result, failed, loaded, load_dat_job, load_job, told_filter_list_loaded, Service, run_job,
  on_dat_loaded, on_engine_loaded, on_reply, read_or_fall_back,
}

module _ {Client FilterSet Storage Policy : Type 0}
    (api : EngineApi Client FilterSet Storage Policy) (same_domain_or_host : Gurl → String → Bool)
    (parse : String → Gurl) (w : EngineWrapper Client Policy) (ready : ℕ → Bool) where
  -- What LoadDAT reports as loaded: a file that is there, and can be deserialized or is empty, which
  -- it does not try to deserialize.
  abbrev pub counts_as_loaded : Option DatFileDataBuffer → Bool
  counts_as_loaded none = false
  counts_as_loaded (some []) = true
  counts_as_loaded (some (byte ∷ bytes)) = is_some (api.deserialize (byte ∷ bytes))

  -- Startup of one engine, from the file that has been read to the reply of the engine.
  abbrev pub start_from_cache :
      Storage
      → Service FilterSet Storage
      → Bool
      → Option DatFileDataBuffer
      → Service FilterSet Storage
  start_from_cache empty_storage s b none = read_or_fall_back true empty_storage ready s b none
  start_from_cache empty_storage s b (some dat) =
      on_reply ready (read_or_fall_back true empty_storage ready s b (some dat))
        (run_job api same_domain_or_host parse w (load_dat_job b dat empty_storage)).1

  on_engine_loaded_outcome :
      (s : Service FilterSet Storage) (success : Bool) (filter_set : Option FilterSet)
      → (cache b : Bool) (dat : DatFileDataBuffer)
      → let s' = on_engine_loaded s b (load_result filter_set success) (
          if success
          then (if is_some filter_set then (if cache then some dat else none) else none)
          else none) in
        (s'.written
          ≡ s.written
            ++ (if success && (is_some filter_set && (cache && not (is_nil dat)))
                then (b, dat) ∷ []
                else []))
        × (s'.told
            ≡ s.told
              ++ (if success && not (is_some filter_set)
                  then []
                  else told_filter_list_loaded b (if success then loaded else failed) ∷ []))
  unfolding on_engine_loaded
  on_engine_loaded_outcome s false fs cache true dat = (sym (append-nil s.written), refl)
  on_engine_loaded_outcome s false fs cache false dat = (sym (append-nil s.written), refl)
  on_engine_loaded_outcome s true none cache b dat =
      (sym (append-nil s.written), sym (append-nil s.told))
  on_engine_loaded_outcome s true (some fs) false true dat = (sym (append-nil s.written), refl)
  on_engine_loaded_outcome s true (some fs) false false dat = (sym (append-nil s.written), refl)
  on_engine_loaded_outcome s true (some fs) true true [] = (sym (append-nil s.written), refl)
  on_engine_loaded_outcome s true (some fs) true false [] = (sym (append-nil s.written), refl)
  on_engine_loaded_outcome s true (some fs) true true (x ∷ dat) = (refl, refl)
  on_engine_loaded_outcome s true (some fs) true false (x ∷ dat) = (refl, refl)

  -- A load of filter lists or resources writes the engine's serialization to its DAT file exactly
  -- if the cache is on, there was a filter set, it was loaded and the serialization is not empty.
  -- The observers are told of it, as loaded or failed, unless it was a load of resources alone.
  pub load_job_outcome :
      (s : Service FilterSet Storage) (b cache : Bool) (filter_set : Option FilterSet)
      → (storage : Storage)
      → let (w', success) = load api same_domain_or_host parse w b filter_set storage in
        let dat = wrapper_serialize api same_domain_or_host parse w' b in
        let s' =
          on_reply ready s
            (run_job api same_domain_or_host parse w (load_job b cache filter_set storage)).1 in
        (s'.written
          ≡ s.written
            ++ (if success && (is_some filter_set && (cache && not (is_nil dat)))
                then (b, dat) ∷ []
                else []))
        × (s'.told
            ≡ s.told
              ++ (if success && not (is_some filter_set)
                  then []
                  else told_filter_list_loaded b (if success then loaded else failed) ∷ []))
  unfolding run_job
  load_job_outcome s b cache filter_set storage =
      let (w', success) = load api same_domain_or_host parse w b filter_set storage in
      on_engine_loaded_outcome s success filter_set cache b
        (wrapper_serialize api same_domain_or_host parse w' b)
