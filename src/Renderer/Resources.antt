-- ===== src/Renderer/Resources.antt =====
-- What the browser gives the renderer of the engines' answers: CosmeticFiltersResources
-- (components/cosmetic_filters/browser/cosmetic_filters_resources.cc).
use Prim.Native.String.{◌++◌ as concat}
use chromium_adblock.Base.{String, Bool, Option, none, some, List, [], ◌∷◌, is_nil, if◌then◌else◌}
use chromium_adblock.Web.{Gurl}
use chromium_adblock.Engine.{EngineApi}
use chromium_adblock.Wrapper.{EngineWrapper}
use chromium_adblock.Wrapper.Cosmetic.{
  Entry, CosmeticResources, url_cosmetic_resources, wrapper_hidden_class_id_selectors,
}

-- The dictionary that goes to the renderer, by the keys that it reads.
pub record PageResources : Type 0 where
  pub injected_script : Option String
  pub generichide : Option Bool
  pub procedural_actions_script : Option String
  pub exceptions : Option (List Entry)
  pub hide_selectors : Option (List Entry)
  pub force_hide_selectors : Option (List Entry)

-- The answer to a query about classes and ids.
pub record HiddenSelectors : Type 0 where
  pub hide_selectors : Option (List Entry)
  pub force_hide_selectors : Option (List Entry)

-- What a query asks about, where it is JSON.
pub record ClassesAndIds : Type 0 where
  pub classes : Option (List Entry)
  pub ids : Option (List Entry)

-- The entries that are strings.
abbrev pub strings_of : List Entry → List String
strings_of [] = []
strings_of (none ∷ entries) = strings_of entries
strings_of (some s ∷ entries) = s ∷ strings_of entries

abbrev pub strings_in : Option (List Entry) → List String
strings_in none = []
strings_in (some entries) = strings_of entries

abbrev entries_of : List String → List Entry
entries_of [] = []
entries_of (s ∷ strings) = some s ∷ entries_of strings

-- `GetString`, which CHECKs that the value is one.
abbrev string_of : Entry → String
string_of none = ""
string_of (some s) = s

-- base::JoinString with a comma.
abbrev join_strings : List Entry → String
join_strings [] = ""
join_strings (entry ∷ []) = string_of entry
join_strings (entry ∷ more ∷ entries) =
    concat (string_of entry) (concat "," (join_strings (more ∷ entries)))

-- `script` fills kProceduralActionsScript: with the feature's state, and with a JSON text that it
-- escapes.
abbrev script_of : (Bool → String → String) → Bool → Option (List Entry) → Option String
script_of script enabled none = none
script_of script enabled (some actions) =
    if is_nil actions
    then none
    else some (script enabled (concat "[" (concat (join_strings actions) "]")))

unfoldable pub page_resources : (Bool → String → String) → Bool → CosmeticResources → PageResources
page_resources script enabled resources = record {
  injected_script = resources.injected_script;
  generichide = resources.generichide;
  procedural_actions_script = script_of script enabled resources.procedural_actions;
  exceptions = resources.exceptions;
  hide_selectors = resources.hide_selectors;
  force_hide_selectors = resources.force_hide_selectors;
}

module _ {Client FilterSet Storage Policy : Type 0}
    (api : EngineApi Client FilterSet Storage Policy) (same_domain_or_host : Gurl → String → Bool)
    (read_resources : Client → String → Option CosmeticResources)
    (read_query : String → Option ClassesAndIds) where
  -- CosmeticFiltersResources::UrlCosmeticResources.
  unfoldable pub page_cosmetic_resources :
      (Bool → String → String) → Bool → EngineWrapper Client Policy → String → PageResources
  unfolding page_resources
  page_cosmetic_resources script enabled w url =
      page_resources script enabled
        (url_cosmetic_resources api same_domain_or_host read_resources w url)

  abbrev answer_query :
      EngineWrapper Client Policy → List String → Option ClassesAndIds → HiddenSelectors
  answer_query w exceptions none = record { hide_selectors = none; force_hide_selectors = none }
  answer_query w exceptions (some query) =
      let (hide, force_hide) =
        wrapper_hidden_class_id_selectors api same_domain_or_host read_resources w
          (strings_in query.classes) (strings_in query.ids) exceptions in
      record {
        hide_selectors = some (entries_of hide);
        force_hide_selectors = some (entries_of force_hide);
      }

  -- CosmeticFiltersResources::HiddenClassIdSelectors; a query that is no dictionary has an empty
  -- answer.
  unfoldable pub hidden_class_id_selectors_for :
      EngineWrapper Client Policy → String → List String → HiddenSelectors
  hidden_class_id_selectors_for w input exceptions = answer_query w exceptions (read_query input)
