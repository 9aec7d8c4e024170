-- ===== src/CustomResources/Lists.antt =====
-- Lists of resources and the names in them (components/brave_shields/core/browser/
-- ad_block_custom_resource_provider.cc).
use chromium_adblock.Base.{
  String, Bool, true, false, not, ◌&&◌, ◌||◌, ◌=s=◌, none, some, List, [], ◌∷◌, ◌++◌, ◌≡◌, refl,
  eq_iff, arith, if◌then◌else◌,
}
use chromium_adblock.CustomResources.{
  Resource, get_resource_name, find_resource, has_resource, overwrite, erase_first,
}

-- No two resources have the same name.
abbrev pub is_unique : List Resource → Bool
is_unique [] = true
is_unique (r ∷ rs) = not (has_resource rs (get_resource_name r)) && is_unique rs

pub find_resource-append :
    (rs : List Resource) (r : Resource) (name : String)
    → find_resource (rs ++ r ∷ []) name ≡ (
        if has_resource rs name
        then find_resource rs name
        else if get_resource_name r =s= name
        then some r
        else none)
unfolding find_resource
find_resource-append [] r name = refl
find_resource-append (x ∷ rs) r name = ground (arith, find_resource-append rs r name)

pub is_unique-append :
    (rs : List Resource) (r : Resource)
    → is_unique rs ≡ true
    → has_resource rs (get_resource_name r) ≡ false
    → is_unique (rs ++ r ∷ []) ≡ true
unfolding find_resource
is_unique-append [] r u h = refl
is_unique-append (x ∷ rs) r u h = ground (
  arith,
  is_unique-append rs r,
  find_resource-append rs r (get_resource_name x),
  eq_iff (get_resource_name x) (get_resource_name r),
  eq_iff (get_resource_name r) (get_resource_name x),
)

pub find_resource-overwrite :
    (rs : List Resource) (old_name name : String) (r : Resource)
    → is_unique rs ≡ true
    → has_resource rs old_name ≡ true
    → (old_name =s= get_resource_name r || not (has_resource rs (get_resource_name r))) ≡ true
    → find_resource (overwrite rs old_name r) name ≡ (
        if get_resource_name r =s= name
        then some r
        else if old_name =s= name
        then none
        else find_resource rs name)
unfolding find_resource
find_resource-overwrite [] old_name name r u h fresh = ground arith
find_resource-overwrite (x ∷ rs) old_name name r u h fresh = ground (
  arith,
  find_resource-overwrite rs old_name name r,
  eq_iff (get_resource_name x) old_name,
  eq_iff (get_resource_name x) name,
  eq_iff old_name name,
  eq_iff old_name (get_resource_name r),
  eq_iff (get_resource_name r) name,
  eq_iff (get_resource_name x) (get_resource_name r),
)

pub is_unique-overwrite :
    (rs : List Resource) (old_name : String) (r : Resource)
    → is_unique rs ≡ true
    → has_resource rs old_name ≡ true
    → (old_name =s= get_resource_name r || not (has_resource rs (get_resource_name r))) ≡ true
    → is_unique (overwrite rs old_name r) ≡ true
unfolding find_resource
is_unique-overwrite [] old_name r u h fresh = refl
is_unique-overwrite (x ∷ rs) old_name r u h fresh = ground (
  arith,
  is_unique-overwrite rs old_name r,
  find_resource-overwrite rs old_name (get_resource_name x) r,
  eq_iff (get_resource_name x) old_name,
  eq_iff old_name (get_resource_name x),
  eq_iff old_name (get_resource_name r),
  eq_iff (get_resource_name r) (get_resource_name x),
  eq_iff (get_resource_name x) (get_resource_name r),
)

pub find_resource-erase_first :
    (rs : List Resource) (gone name : String)
    → is_unique rs ≡ true
    → find_resource (erase_first rs gone) name
      ≡ (if gone =s= name then none else find_resource rs name)
unfolding find_resource
find_resource-erase_first [] gone name u = ground arith
find_resource-erase_first (x ∷ rs) gone name u = ground (
  arith,
  find_resource-erase_first rs gone name,
  eq_iff (get_resource_name x) gone,
  eq_iff (get_resource_name x) name,
  eq_iff gone name,
)

pub is_unique-erase_first :
    (rs : List Resource) (gone : String)
    → is_unique rs ≡ true
    → is_unique (erase_first rs gone) ≡ true
unfolding find_resource
is_unique-erase_first [] gone u = refl
is_unique-erase_first (x ∷ rs) gone u =
    ground (
      arith,
      is_unique-erase_first rs gone,
      find_resource-erase_first rs gone (get_resource_name x),
    )
