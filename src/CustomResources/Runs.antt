-- ===== src/CustomResources/Runs.antt =====
-- Custom resources over many operations, one after the other or with the value store's answers in
-- between (components/brave_shields/core/browser/ad_block_custom_resource_provider.cc).
use chromium_adblock.Base.{
  String, Bool, true, false, ◌=s=◌, none, List, [], ◌∷◌, ◌++◌, ◌≡◌, refl, eq_iff, arith,
}
use chromium_adblock.CustomResources.{
  ok, Resource, get_resource_name, find_resource, has_resource, overwrite, erase_first, Provider,
  get_custom_resources, save_resources, reload_resources_and_notify, remove_key,
  add_resource_internal, add_resource, update_resource, remove_resource,
}
use chromium_adblock.CustomResources.Lists.{
  is_unique, find_resource-append, is_unique-append, is_unique-overwrite, is_unique-erase_first,
}
use chromium_adblock.CustomResources.Operations.{get-save, get-remove_key}

pub data Operation : Type 0 where
  adds : String → Resource → Operation
  updates : String → String → Resource → Operation
  removes : String → String → Operation
  removes_key : String → Operation

module _ {Storage : Type 0} where
  add_resource_internal-new :
      (p : Provider Storage) (key : String) (r : Resource) (rs : List Resource)
      → has_resource rs (get_resource_name r) ≡ false
      → add_resource_internal p key r rs
        ≡ (reload_resources_and_notify (save_resources p key (rs ++ r ∷ [])), ok)
  unfolding add_resource_internal
  add_resource_internal-new p key r rs h = rw h

  saved-lost :
      (p : Provider Storage) (key name : String) (r : Resource) (rs : List Resource)
      → has_resource rs name ≡ false
      → (get_resource_name r =s= name) ≡ false
      → find_resource
          (get_custom_resources
            (reload_resources_and_notify (save_resources p key (rs ++ r ∷ [])))
            key)
          name
        ≡ none
  saved-lost p key name r rs h d =
      ground
        (arith, get-save p key key (rs ++ r ∷ []), find_resource-append rs r name, eq_iff key key)

  -- Two resources of different new names that are added to a key, where the value store answers the
  -- second addition before the first one is saved: both are reported as added, and the first is
  -- gone.
  pub add_resource_internal-lost :
      (p : Provider Storage) (key : String) (first second : Resource)
      → has_resource (get_custom_resources p key) (get_resource_name first) ≡ false
      → has_resource (get_custom_resources p key) (get_resource_name second) ≡ false
      → (get_resource_name second =s= get_resource_name first) ≡ false
      → let rs = get_custom_resources p key in
        let (p₁, code₁) = add_resource_internal p key first rs in
        let (p₂, code₂) = add_resource_internal p₁ key second rs in
        (code₁ ≡ ok)
        × (code₂ ≡ ok)
        × (find_resource (get_custom_resources p₂ key) (get_resource_name first) ≡ none)
  add_resource_internal-lost p key first second f s d =
      let rs = get_custom_resources p key in
      rw
        (
          add_resource_internal-new p key first rs f,
          add_resource_internal-new
              (reload_resources_and_notify (save_resources p key (rs ++ first ∷ []))) key second rs
              s,
        )
        (
          refl,
          refl,
          saved-lost (reload_resources_and_notify (save_resources p key (rs ++ first ∷ []))) key
              (get_resource_name first) second rs f d,
        )

  module _ (is_string_ascii : String → Bool) where
    unfoldable pub run : List Operation → Provider Storage → Provider Storage
    run [] p = p
    run (adds key r ∷ ops) p = run ops (add_resource is_string_ascii p key r).0
    run (updates key old_name r ∷ ops) p =
        run ops (update_resource is_string_ascii p key old_name r).0
    run (removes key name ∷ ops) p = run ops (remove_resource is_string_ascii p key name).0
    run (removes_key key ∷ ops) p = run ops (remove_key p key).0

    -- No key has two resources of one name.
    abbrev pub Unique : Provider Storage → Type 0
    Unique p = (key : String) → is_unique (get_custom_resources p key) ≡ true

    pub add_resource-Unique :
        (p : Provider Storage) (key : String) (r : Resource)
        → Unique p
        → Unique (add_resource is_string_ascii p key r).0
    unfolding add_resource
    add_resource-Unique p key r u other =
        let rs = get_custom_resources p key in
        ground (arith, get-save p key other (rs ++ r ∷ []), is_unique-append rs r, u key, u other)

    pub update_resource-Unique :
        (p : Provider Storage) (key old_name : String) (r : Resource)
        → Unique p
        → Unique (update_resource is_string_ascii p key old_name r).0
    unfolding update_resource
    update_resource-Unique p key old_name r u other =
        let rs = get_custom_resources p key in
        ground (
          arith,
          get-save p key other (overwrite rs old_name r),
          is_unique-overwrite rs old_name r,
          u key,
          u other,
        )

    pub remove_resource-Unique :
        (p : Provider Storage) (key name : String)
        → Unique p
        → Unique (remove_resource is_string_ascii p key name).0
    unfolding remove_resource
    remove_resource-Unique p key name u other =
        let rs = get_custom_resources p key in
        ground (
          arith,
          get-save p key other (erase_first rs name),
          is_unique-erase_first rs name,
          u key,
          u other,
        )

    pub remove_key-Unique :
        (p : Provider Storage) (key : String) → Unique p → Unique (remove_key p key).0
    remove_key-Unique p key u other = ground (arith, get-remove_key p key other, u other)

    -- From a store without duplicate names in any key, no sequence of additions, updates and
    -- removals, each with its answer before the next, whatever they report, makes one.
    pub run-Unique :
        (ops : List Operation) (p : Provider Storage)
        → ((key : String) → is_unique (get_custom_resources p key) ≡ true)
        → (key : String) → is_unique (get_custom_resources (run ops p) key) ≡ true
    unfolding run
    run-Unique [] p u key = u key
    run-Unique (adds k r ∷ ops) p u key =
        run-Unique ops (add_resource is_string_ascii p k r).0 (add_resource-Unique p k r u) key
    run-Unique (updates k old_name r ∷ ops) p u key =
        run-Unique ops (update_resource is_string_ascii p k old_name r).0
          (update_resource-Unique p k old_name r u) key
    run-Unique (removes k name ∷ ops) p u key =
        run-Unique ops (remove_resource is_string_ascii p k name).0
          (remove_resource-Unique p k name u) key
    run-Unique (removes_key k ∷ ops) p u key =
        run-Unique ops (remove_key p k).0 (remove_key-Unique p k u) key
