-- ===== src/CustomResources/Operations.antt =====
-- What the operations on custom resources do to the store, and their error codes (components/
-- brave_shields/core/browser/ad_block_custom_resource_provider.cc).
use chromium_adblock.Base.{
  String, Bool, true, false, not, ◌&&◌, ◌=s=◌, none, some, List, [], ◌∷◌, ◌++◌, ◌≡◌, eq_iff, arith,
  if◌then◌else◌,
}
use chromium_adblock.Base.Dict.{find-set, find-erase}
use chromium_adblock.CustomResources.{
  ErrorCode, ok, invalid, already_exists, not_found, Resource, get_resource_name, is_valid_resource,
  find_resource, has_resource, overwrite, erase_first, Provider, get_custom_resources,
  save_resources, reload_resources_and_notify, remove_key, add_resource, update_resource,
  remove_resource,
}
use chromium_adblock.CustomResources.Lists.{
  is_unique, find_resource-overwrite, find_resource-erase_first,
}

abbrev pub is_ok : ErrorCode → Bool
is_ok ok = true
is_ok _ = false

module _ {Storage : Type 0} where
  pub get-save :
      (p : Provider Storage) (key other : String) (rs : List Resource)
      → get_custom_resources (reload_resources_and_notify (save_resources p key rs)) other
        ≡ (if key =s= other then rs else get_custom_resources p other)
  unfolding get_custom_resources save_resources reload_resources_and_notify
  get-save p key other rs = ground (arith, find-set p.store key other rs)

  pub get-remove_key :
      (p : Provider Storage) (key other : String)
      → get_custom_resources (remove_key p key).0 other
        ≡ (if key =s= other then [] else get_custom_resources p other)
  unfolding get_custom_resources remove_key
  get-remove_key p key other = ground (arith, find-erase p.store key other)

  module _ (is_string_ascii : String → Bool) (p : Provider Storage) (key : String) where
    abbrev pub is_valid_at : Resource → Bool
    is_valid_at r = is_valid_resource is_string_ascii r (key =s= "SCRIPTLETS")

    -- Adding a resource fails as invalid if it is not valid for the key, or else as a duplicate if
    -- the key has a resource of its name. Otherwise it is the last of the key's resources. No other
    -- key's resources change, and with an error nothing does.
    pub add_resource_outcome :
        (r : Resource) (other : String)
        → let (p', code) = add_resource is_string_ascii p key r in
          let rs = get_custom_resources p key in
          (code ≡ (
            if not (is_valid_at r)
            then invalid
            else if has_resource rs (get_resource_name r)
            then already_exists
            else ok))
          × (get_custom_resources p' other ≡ (
              if is_ok code && key =s= other then rs ++ r ∷ [] else get_custom_resources p other))
    unfolding add_resource
    add_resource_outcome r other =
        (ground arith, ground (arith, get-save p key other (get_custom_resources p key ++ r ∷ [])))

    -- Updating a resource in a list without duplicate names fails as invalid, as missing, or as a
    -- duplicate if the new name is another one and taken. Otherwise the new name finds the new
    -- resource, the old one, if it differs, nothing, and all others what they found before.
    pub update_resource_outcome :
        (old_name : String) (r : Resource) (name : String)
        → is_unique (get_custom_resources p key) ≡ true
        → let (p', code) = update_resource is_string_ascii p key old_name r in
          let rs = get_custom_resources p key in
          (code ≡ (
            if not (is_valid_at r)
            then invalid
            else if not (has_resource rs old_name)
            then not_found
            else if not (old_name =s= get_resource_name r) && has_resource rs (get_resource_name r)
            then already_exists
            else ok))
          × (find_resource (get_custom_resources p' key) name ≡ (
              if is_ok code
              then (if get_resource_name r =s= name
                  then some r
                  else if old_name =s= name
                  then none
                  else find_resource rs name)
              else find_resource rs name))
    unfolding update_resource
    update_resource_outcome old_name r name u = (
      ground arith,
      ground (
        arith,
        get-save p key key (overwrite (get_custom_resources p key) old_name r),
        find_resource-overwrite (get_custom_resources p key) old_name name r u,
        eq_iff key key,
      ),
    )

    -- Removing a resource from a list without duplicate names fails as missing if there is none of
    -- that name; afterwards the name finds nothing, and all others what they found before.
    pub remove_resource_outcome :
        (gone name : String)
        → is_unique (get_custom_resources p key) ≡ true
        → let (p', code) = remove_resource is_string_ascii p key gone in
          let rs = get_custom_resources p key in
          (code ≡ (if has_resource rs gone then ok else not_found))
          × (find_resource (get_custom_resources p' key) name
              ≡ (if gone =s= name then none else find_resource rs name))
    unfolding remove_resource
    remove_resource_outcome gone name u = (
      ground arith,
      ground (
        arith,
        get-save p key key (erase_first (get_custom_resources p key) gone),
        find_resource-erase_first (get_custom_resources p key) gone name u,
        eq_iff key key,
        eq_iff gone name,
      ),
    )
