-- ===== src/CustomResources/Changed.antt =====
-- What a change by the user does to the loads of AdBlockCustomResourceProvider
-- (components/brave_shields/core/browser/ad_block_custom_resource_provider.cc).
use chromium_adblock.Base.{
  suc, ◌=s=◌, not, ◌&&◌, String, Bool, true, false, [], ◌∷◌, ◌++◌, ◌≡◌, refl, ◌⊎◌, inl, inr,
  if◌then◌else◌,
}
use chromium_adblock.CustomResources.{
  ErrorCode, ok, invalid, not_found, already_exists, get_custom_resources, is_valid_resource,
  has_resource, get_resource_name, overwrite, erase_first, save_resources,
  reload_resources_and_notify, Provider, remove_key, add_resource, update_resource, remove_resource,
  add_resource_internal, update_resource_internal,
}
use chromium_adblock.CustomResources.Runs.{Operation, adds, updates, removes, removes_key, run}

module _ {Storage : Type 0} (is_string_ascii : String → Bool) where
  -- A change that is made starts a load, and one that is refused changes nothing.
  abbrev pub Changed : Provider Storage → Provider Storage → Type 0
  Changed p p' = (p' ≡ p) ⊎ (p'.reloads ≡ suc p.reloads)

  choose-Changed :
      (p : Provider Storage) (test : Bool) (x y : Provider Storage × ErrorCode)
      → Changed p x.0
      → Changed p y.0
      → Changed p (if test then x else y).0
  choose-Changed p true x y cx cy = cx
  choose-Changed p false x y cx cy = cy

  pub run-Changed :
      (op : Operation) (p : Provider Storage) → Changed p (run is_string_ascii (op ∷ []) p)
  unfolding run add_resource update_resource remove_resource remove_key
  run-Changed (adds key r) p =
      let rs = get_custom_resources p key in
      choose-Changed p (not (is_valid_resource is_string_ascii r (key =s= "SCRIPTLETS")))
        (p, invalid) (add_resource_internal p key r rs) (inl refl)
        (choose-Changed p (has_resource rs (get_resource_name r)) (p, already_exists)
          (reload_resources_and_notify (save_resources p key (rs ++ r ∷ [])), ok) (inl refl)
          (inr refl))
  run-Changed (updates key old_name r) p =
      let rs = get_custom_resources p key in
      let updated : Provider Storage × ErrorCode =
        (reload_resources_and_notify (save_resources p key (overwrite rs old_name r)), ok) in
      let taken = not (old_name =s= get_resource_name r) && has_resource rs (get_resource_name r) in
      choose-Changed p (not (is_valid_resource is_string_ascii r (key =s= "SCRIPTLETS")))
        (p, invalid) (update_resource_internal p key old_name r rs) (inl refl)
        (choose-Changed p (not (has_resource rs old_name)) (p, not_found)
          (if taken then (p, already_exists) else updated) (inl refl)
          (choose-Changed p taken (p, already_exists) updated (inl refl) (inr refl)))
  run-Changed (removes key name) p =
      let rs = get_custom_resources p key in
      choose-Changed p (has_resource rs name)
        (reload_resources_and_notify (save_resources p key (erase_first rs name)), ok)
        (p, not_found) (inr refl) (inl refl)
  run-Changed (removes_key key) p = inr refl
