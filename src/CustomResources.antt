-- ===== src/CustomResources.antt =====
-- AdBlockCustomResourceProvider (components/brave_shields/core/browser/
-- ad_block_custom_resource_provider.{h,cc}): the user's scriptlets and redirect resources, one list
-- for each key of a value store, added to the resources of the default provider.
-- The value store is a map in the order of its keys; every value in it is a list, since only
-- SaveResources writes to it. The store is missing in tests only, and there is one here.
pub mod Lists
pub mod Operations
pub mod Runs
pub mod Merge
pub mod Changed
pub mod Loading
pub mod Fresh
pub mod Examples
use Prim.Native.String.{len, slice}
use chromium_adblock.Base.{
  ℕ, zero, suc, ◌-◌, String, Bool, true, false, not, ◌&&◌, ◌||◌, ◌=s=◌, leb, Option, none, some,
  is_some, is_empty, List, [], ◌∷◌, ◌++◌, is_nil, if◌then◌else◌,
}
use chromium_adblock.Base.Dict.{Dict, find, set, erase}

pub data ErrorCode : Type 0 where
  ok invalid already_exists not_found : ErrorCode

-- A base::Value as the provider looks at it: whether it is a dictionary, and the texts there under
-- `name`, `content` and `kind.mime`.
pub record Resource : Type 0 where
  pub is_dict : Bool
  pub name : Option String
  pub content : Option String
  pub mime : Option String

unfoldable pub has_name : Resource → Bool
has_name r = r.is_dict && is_some r.name

abbrev text_or_empty : Option String → String
text_or_empty none = ""
text_or_empty (some text) = text

unfoldable pub get_resource_name : Resource → String
unfolding has_name
get_resource_name r = if not (has_name r) then "" else text_or_empty r.name

-- `name->ends_with(".js")`.
abbrev ends_with_js : String → Bool
ends_with_js s = leb 3 (len s) && slice s (len s - 3) (len s) =s= ".js"

abbrev has_mime : Bool → String → Option String → Bool
has_mime is_scriptlet name none = false
has_mime is_scriptlet name (some mime) =
    not (is_scriptlet && (not (mime =s= "application/javascript") || not (ends_with_js name)))

-- `is_string_ascii` is base::IsStringASCII.
unfoldable pub is_valid_resource : (String → Bool) → Resource → Bool → Bool
unfolding has_name
is_valid_resource is_string_ascii r is_scriptlet =
    if not (has_name r)
    then false
    else if not (is_some r.content)
    then false
    else if is_empty (text_or_empty r.name) || not (is_string_ascii (text_or_empty r.name))
    then false
    else has_mime is_scriptlet (text_or_empty r.name) r.mime

-- FindResource: the first resource of that name, and whether there is one.
unfoldable pub find_resource : List Resource → String → Option Resource
find_resource [] name = none
find_resource (r ∷ rs) name =
    let later = find_resource rs name in if get_resource_name r =s= name then some r else later

abbrev pub has_resource : List Resource → String → Bool
has_resource rs name = is_some (find_resource rs name)

-- `*it = resource` and `erase(it)`, for the first resource of a name.
abbrev pub overwrite : List Resource → String → Resource → List Resource
overwrite [] name new_resource = []
overwrite (r ∷ rs) name new_resource =
    if get_resource_name r =s= name then new_resource ∷ rs else r ∷ overwrite rs name new_resource

abbrev pub erase_first : List Resource → String → List Resource
erase_first [] name = []
erase_first (r ∷ rs) name = if get_resource_name r =s= name then rs else r ∷ erase_first rs name

pub record Provider (Storage : Type 0) : Type 0 where
  pub store : Dict (List Resource)
  pub cached_storage : Option Storage
  -- how often the observers were told OnCustomResourcesChanged
  pub changes : ℕ
  -- how often LoadResources has asked the default provider; the answers come later, as events of
  -- Loading
  pub reloads : ℕ

abbrev list_or_empty : Option (List Resource) → List Resource
list_or_empty none = []
list_or_empty (some rs) = rs

module _ {Storage : Type 0} where
  unfoldable pub get_custom_resources : Provider Storage → String → List Resource
  get_custom_resources p key = list_or_empty (find p.store key)

  unfoldable pub save_resources : Provider Storage → String → List Resource → Provider Storage
  save_resources p key rs = record p { store = set p.store key rs; changes = suc p.changes }

  -- ReloadResourcesAndNotify: without a cached storage LoadResources asks the default provider,
  -- whose answer is an event of Loading.
  unfoldable pub reload_resources_and_notify : Provider Storage → Provider Storage
  reload_resources_and_notify p = record p { cached_storage = none; reloads = suc p.reloads }

  unfoldable pub remove_key : Provider Storage → String → Provider Storage × ErrorCode
  unfolding reload_resources_and_notify
  remove_key p key = (
    reload_resources_and_notify (record p { store = erase p.store key; changes = suc p.changes }),
    ok,
  )

  -- The replies of the value store: `rs` is what it held when it was asked.
  unfoldable pub add_resource_internal :
      Provider Storage → String → Resource → List Resource → Provider Storage × ErrorCode
  unfolding reload_resources_and_notify save_resources
  add_resource_internal p key r rs =
      if has_resource rs (get_resource_name r)
      then (p, already_exists)
      else (reload_resources_and_notify (save_resources p key (rs ++ r ∷ [])), ok)

  unfoldable pub update_resource_internal :
      Provider Storage → String → String → Resource → List Resource → Provider Storage × ErrorCode
  unfolding reload_resources_and_notify save_resources
  update_resource_internal p key old_name r rs =
      if not (has_resource rs old_name)
      then (p, not_found)
      else if not (old_name =s= get_resource_name r) && has_resource rs (get_resource_name r)
      then (p, already_exists)
      else (reload_resources_and_notify (save_resources p key (overwrite rs old_name r)), ok)

  unfoldable pub remove_resource_internal :
      Provider Storage → String → String → List Resource → Provider Storage × ErrorCode
  unfolding reload_resources_and_notify save_resources
  remove_resource_internal p key name rs =
      if has_resource rs name
      then (reload_resources_and_notify (save_resources p key (erase_first rs name)), ok)
      else (p, not_found)

  -- The operations, where the value store answers before anything else happens.
  module _ (is_string_ascii : String → Bool) where
    unfoldable pub add_resource :
        Provider Storage → String → Resource → Provider Storage × ErrorCode
    unfolding add_resource_internal get_custom_resources
    add_resource p key r =
        if not (is_valid_resource is_string_ascii r (key =s= "SCRIPTLETS"))
        then (p, invalid)
        else add_resource_internal p key r (get_custom_resources p key)

    unfoldable pub update_resource :
        Provider Storage → String → String → Resource → Provider Storage × ErrorCode
    unfolding update_resource_internal get_custom_resources
    update_resource p key old_name r =
        if not (is_valid_resource is_string_ascii r (key =s= "SCRIPTLETS"))
        then (p, invalid)
        else update_resource_internal p key old_name r (get_custom_resources p key)

    unfoldable pub remove_resource :
        Provider Storage → String → String → Provider Storage × ErrorCode
    unfolding remove_resource_internal get_custom_resources
    remove_resource p key name = remove_resource_internal p key name (get_custom_resources p key)
