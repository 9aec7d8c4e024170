-- ===== src/CustomResources/Merge.antt =====
-- The storage of all resources (components/brave_shields/core/browser/
-- ad_block_custom_resource_provider.cc): the default provider's, extended by the custom ones of
-- each key. `extend_resource_storage` is the crate's, and `write_json` base::WriteJson.
use chromium_adblock.Base.{
  String, Bool, true, false, not, Option, none, some, List, [], ◌∷◌, ◌≡◌, refl, ◌∙◌, is_nil,
  if◌then◌else◌,
}
use chromium_adblock.Base.Dict.{Dict}
use chromium_adblock.CustomResources.{Resource, Provider}

module _ {Storage : Type 0} (extend_resource_storage : Storage → String → Storage)
    (write_json : List Resource → Option String) where
  abbrev extend_by : Option String → Storage × Bool → Storage × Bool
  extend_by none so_far = so_far
  extend_by (some json) (merged, extended) = (extend_resource_storage merged json, true)

  -- The loop over the keys, with the storage so far and whether it was extended.
  unfoldable pub extend_each : Dict (List Resource) → Storage × Bool → Storage × Bool
  extend_each [] so_far = so_far
  extend_each ((key, []) ∷ entries) so_far = extend_each entries so_far
  extend_each ((key, r ∷ rs) ∷ entries) so_far =
      extend_each entries (extend_by (write_json (r ∷ rs)) so_far)

  abbrev store_and_run : Provider Storage → Storage → Provider Storage × Storage
  store_and_run p storage = (record p { cached_storage = some storage }, storage)

  -- OnCustomResourcesLoaded, with what the callback is given.
  unfoldable pub on_custom_resources_loaded :
      Provider Storage → Storage → Dict (List Resource) → Provider Storage × Storage
  unfolding extend_each
  on_custom_resources_loaded p default_storage custom_resources =
      let (merged, extended) = extend_each custom_resources (default_storage, false) in
      if is_nil custom_resources
      then store_and_run p default_storage
      else if not extended
      then store_and_run p default_storage
      else store_and_run p merged

  -- OnDefaultResourcesLoaded, where GetKeys answers with the store as it is.
  unfoldable pub on_default_resources_loaded :
      Provider Storage → Storage → Provider Storage × Storage
  unfolding on_custom_resources_loaded
  on_default_resources_loaded p storage = on_custom_resources_loaded p storage p.store

  -- OnResourcesLoaded of the default provider; the result is what the observers are given.
  unfoldable pub on_resources_loaded : Provider Storage → Storage → Provider Storage × Storage
  unfolding on_default_resources_loaded
  on_resources_loaded p storage =
      on_default_resources_loaded (record p { cached_storage = none }) storage

  -- The texts by which the default storage is extended: those of the keys that have resources, in
  -- key order, as far as they can be written.
  abbrev and_json : Option String → List String → List String
  and_json none jsons = jsons
  and_json (some json) jsons = json ∷ jsons

  abbrev pub jsons : Dict (List Resource) → List String
  jsons [] = []
  jsons ((key, []) ∷ entries) = jsons entries
  jsons ((key, r ∷ rs) ∷ entries) = and_json (write_json (r ∷ rs)) (jsons entries)

  abbrev pub extend_all : Storage → List String → Storage
  extend_all storage [] = storage
  extend_all storage (json ∷ more) = extend_all (extend_resource_storage storage json) more

  abbrev either : Bool → Bool → Bool
  either true later = true
  either false later = later

  extend_by-extend_all :
      (json : Option String) (later : List String) (storage : Storage) (extended : Bool)
      → let (storage', extended') = extend_by json (storage, extended) in
        (extend_all storage' later ≡ extend_all storage (and_json json later))
        × (either extended' (not (is_nil later))
            ≡ either extended (not (is_nil (and_json json later))))
  extend_by-extend_all none later storage extended = (refl, refl)
  extend_by-extend_all (some json) later storage true = (refl, refl)
  extend_by-extend_all (some json) later storage false = (refl, refl)

  extend_each-extend_all :
      (entries : Dict (List Resource)) (storage : Storage) (extended : Bool)
      → ((extend_each entries (storage, extended)).0 ≡ extend_all storage (jsons entries))
        × ((extend_each entries (storage, extended)).1
            ≡ either extended (not (is_nil (jsons entries))))
  unfolding extend_each
  extend_each-extend_all [] storage true = (refl, refl)
  extend_each-extend_all [] storage false = (refl, refl)
  extend_each-extend_all ((key, []) ∷ entries) storage extended =
      extend_each-extend_all entries storage extended
  extend_each-extend_all ((key, r ∷ rs) ∷ entries) storage extended =
      let json = write_json (r ∷ rs) in
      let (storage', extended') = extend_by json (storage, extended) in
      let ih = extend_each-extend_all entries storage' extended' in
      let one = extend_by-extend_all json (jsons entries) storage extended in
      (ih.0 ∙ one.0, ih.1 ∙ one.1)

  nothing_to_add :
      (p : Provider Storage) (storage : Storage) (js : List String)
      → (if not (not (is_nil js))
          then store_and_run p storage
          else store_and_run p (extend_all storage js))
        ≡ store_and_run p (extend_all storage js)
  nothing_to_add p storage [] = refl
  nothing_to_add p storage (j ∷ js) = refl

  pub on_custom-extend_all :
      (p : Provider Storage) (storage : Storage) (entries : Dict (List Resource))
      → on_custom_resources_loaded p storage entries
        ≡ store_and_run p (extend_all storage (jsons entries))
  unfolding on_custom_resources_loaded
  on_custom-extend_all p storage [] = refl
  on_custom-extend_all p storage ((key, []) ∷ entries) =
      let both = extend_each-extend_all entries storage false in
      rw (both.0, both.1) (nothing_to_add p storage (jsons entries))
  on_custom-extend_all p storage ((key, r ∷ rs) ∷ entries) =
      let both = extend_each-extend_all ((key, r ∷ rs) ∷ entries) storage false in
      rw (both.0, both.1) (nothing_to_add p storage (jsons ((key, r ∷ rs) ∷ entries)))

  -- When the default provider's resources arrive, the observers are given them, extended by every
  -- key's non-empty custom resources that can be written, in key order, and the same storage is
  -- cached.
  pub on_default_resources_loaded-extend_all :
      (p : Provider Storage) (storage : Storage)
      → on_default_resources_loaded p storage ≡ (
        record p { cached_storage = some (extend_all storage (jsons p.store)) },
        extend_all storage (jsons p.store),
      )
  unfolding on_default_resources_loaded
  on_default_resources_loaded-extend_all p storage = on_custom-extend_all p storage p.store
