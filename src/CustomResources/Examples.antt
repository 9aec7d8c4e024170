-- ===== src/CustomResources/Examples.antt =====
-- The properties of custom resources at concrete inputs.
use chromium_adblock.Base.{
  String, Bool, true, Option, none, some, List, [], ◌∷◌, ◌≡◌, refl, ap, ◌++◌,
}
use chromium_adblock.Base.Dict.{find}
use chromium_adblock.CustomResources.{
  ok, Resource, Provider, get_resource_name, get_custom_resources, find_resource,
  add_resource_internal,
}
use chromium_adblock.CustomResources.Lists.{is_unique}
use chromium_adblock.CustomResources.Runs.{
  Operation, adds, updates, removes, run, run-Unique, add_resource_internal-lost,
}
use chromium_adblock.CustomResources.Merge.{
  on_default_resources_loaded, on_default_resources_loaded-extend_all,
}
use chromium_adblock.Base.Dict.{find, set}
use chromium_adblock.CustomResources.{
  add_resource, add_resource_internal, get_custom_resources, is_valid_resource, find_resource,
  get_resource_name,
}
use chromium_adblock.CustomResources.Merge.{on_custom_resources_loaded}
use chromium_adblock.CustomResources.Loading.{
  load_step, LoadEvent, loads, changes, default_answers, store_answers, Loading, run_loads,
}

abbrev pub scriptlet : String → Resource
scriptlet name = record {
  is_dict = true;
  name = some name;
  content = some "";
  mime = some "application/javascript";
}

-- One key with one scriptlet, and a cached storage that is the list of what it was extended by.
abbrev provider : Provider (List String)
provider = record {
  store = ("SCRIPTLETS", scriptlet "user-a.js" ∷ []) ∷ [];
  cached_storage = none;
  changes = 0;
  reloads = 0;
}

abbrev any_text : String → Bool
any_text s = true

abbrev extend : List String → String → List String
extend storage json = storage ++ json ∷ []

abbrev write : List Resource → Option String
write [] = none
write (r ∷ rs) = r.name

add_resource_internal-lost_example :
    let rs = get_custom_resources provider "REDIRECTS" in
    let (p₁, code₁) = add_resource_internal provider "REDIRECTS" (scriptlet "b.js") rs in
    let (p₂, code₂) = add_resource_internal p₁ "REDIRECTS" (scriptlet "c.js") rs in
    (code₁ ≡ ok)
    × (code₂ ≡ ok)
    × (find_resource (get_custom_resources p₂ "REDIRECTS") "b.js" ≡ none)
unfolding get_custom_resources find find_resource get_resource_name
add_resource_internal-lost_example =
    add_resource_internal-lost provider "REDIRECTS" (scriptlet "b.js") (scriptlet "c.js") refl refl
      refl

abbrev operations : List Operation
operations =
    adds "SCRIPTLETS" (scriptlet "user-b.js")
    ∷ updates "SCRIPTLETS" "user-a.js" (scriptlet "user-b.js")
    ∷ removes "SCRIPTLETS" "user-a.js"
    ∷ []

abbrev empty_provider : Provider (List String)
empty_provider = record provider { store = [] }

run-Unique_example :
    is_unique (get_custom_resources (run any_text operations empty_provider) "SCRIPTLETS") ≡ true
unfolding get_custom_resources find
run-Unique_example = run-Unique any_text operations empty_provider (λ key. refl) "SCRIPTLETS"

on_default_resources_loaded-extend_all_example :
    (on_default_resources_loaded extend write provider ("default" ∷ [])).0.cached_storage
    ≡ some ("default" ∷ "user-a.js" ∷ [])
on_default_resources_loaded-extend_all_example =
    ap (λ r. r.0.cached_storage)
      (on_default_resources_loaded-extend_all extend write provider ("default" ∷ []))

-- A load is under way when the resources are changed, and its reply with the store as it was comes
-- after the change.
abbrev late_reply : List LoadEvent
late_reply =
    loads
    ∷ default_answers
    ∷ changes (adds "USER" (scriptlet "user-c.js"))
    ∷ store_answers
    ∷ default_answers
    ∷ store_answers
    ∷ []

abbrev idle : Loading (List String)
idle = record { provider = provider; answered = 0; asked = [] }

-- The late reply leaves a cache without the new resource, and the next one has it.
late_reply_lem :
    ((run_loads extend write any_text
        ("default" ∷ [])
        (loads
          ∷ default_answers
          ∷ changes (adds "USER" (scriptlet "user-c.js"))
          ∷ store_answers
          ∷ [])
        idle).provider.cached_storage
      ≡ some ("default" ∷ "user-a.js" ∷ []))
    × ((run_loads extend write any_text ("default" ∷ []) late_reply idle).provider.cached_storage
        ≡ some ("default" ∷ "user-a.js" ∷ "user-c.js" ∷ []))
unfolding run_loads load_step on_custom_resources_loaded run add_resource is_valid_resource
    find_resource find get_resource_name set
late_reply_lem = (refl, refl)
