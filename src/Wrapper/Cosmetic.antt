-- ===== src/Wrapper/Cosmetic.antt =====
-- The cosmetic half of ad_block_engine_wrapper.cc: MergeResourcesInto, StripProceduralFilters,
-- UrlCosmeticResources and HiddenClassIdSelectors.
-- A base::DictValue of cosmetic resources is seen by the keys that the code reads: `none` is a
-- missing key or a value of another type, which FindList, FindString and FindBool do not tell apart.
pub mod Merge
pub mod Strip
use Prim.Native.String.{◌++◌ as concat}
use chromium_adblock.Base.{
  ℕ, zero, suc, String, Bool, true, false, not, ◌&&◌, ◌==◌, ◌=s=◌, Option, none, some, List, [],
  ◌∷◌, ◌++◌, if◌then◌else◌, length,
}
use chromium_adblock.Engine.{EngineApi, Engine, hidden_class_id_selectors}
use chromium_adblock.Web.{Gurl}
use chromium_adblock.Wrapper.{EngineWrapper}

-- An entry of a list of resources; `none` is a value that is not a string.
abbrev pub Entry : Type 0
Entry = Option String

pub record CosmeticResources : Type 0 where
  pub hide_selectors : Option (List Entry)
  pub force_hide_selectors : Option (List Entry)
  pub exceptions : Option (List Entry)
  pub procedural_actions : Option (List Entry)
  pub injected_script : Option String
  pub generichide : Option Bool

-- `base::DictValue()`, what an engine returns where the crate's JSON does not parse.
abbrev pub empty_resources : CosmeticResources
empty_resources = record {
  hide_selectors = none;
  force_hide_selectors = none;
  exceptions = none;
  procedural_actions = none;
  injected_script = none;
  generichide = none;
}

-- Append where both lists are there.
abbrev append_list : Option (List Entry) → Option (List Entry) → Option (List Entry)
append_list (some into) (some from) = some (into ++ from)
append_list into _ = into

-- `into.FindList(key)`, or a new empty list that is set.
abbrev find_or_new : Option (List Entry) → Option (List Entry)
find_or_new none = some []
find_or_new l = l

abbrev pub wrap_scripts : String → String → String
wrap_scripts into from = concat "{\n" (concat into (concat "\n}\n{\n" (concat from "\n}")))

abbrev append_script : Option String → Option String → Option String
append_script (some into) (some from) = some (wrap_scripts into from)
append_script into _ = into

abbrev merge_generichide : Option Bool → Option Bool → Option Bool
merge_generichide into (some true) = some true
merge_generichide into _ = into

unfoldable pub merge_resources_into :
    CosmeticResources → CosmeticResources → Bool → CosmeticResources
merge_resources_into from into force_hide = record {
  hide_selectors =
      if force_hide
      then into.hide_selectors
      else append_list into.hide_selectors from.hide_selectors;
  force_hide_selectors =
      if force_hide
      then append_list (find_or_new into.force_hide_selectors) from.hide_selectors
      else into.force_hide_selectors;
  exceptions = append_list into.exceptions from.exceptions;
  procedural_actions = append_list into.procedural_actions from.procedural_actions;
  injected_script = append_script into.injected_script from.injected_script;
  generichide = merge_generichide into.generichide from.generichide;
}

-- `url_cosmetic_resources` is the crate's call with the JSON reader behind it: AdBlockEngine's
-- UrlCosmeticResources, which falls back to the empty dictionary.
module _ {Client FilterSet Storage Policy : Type 0}
    (api : EngineApi Client FilterSet Storage Policy) (same_domain_or_host : Gurl → String → Bool)
    (read_resources : Client → String → Option CosmeticResources) where
  unfoldable pub engine_url_cosmetic_resources : Engine Client Policy → String → CosmeticResources
  engine_url_cosmetic_resources e url = elim (read_resources e.ad_block_client url) [
    | none ↦ empty_resources
    | some resources ↦ resources
  ]

  unfoldable pub url_cosmetic_resources : EngineWrapper Client Policy → String → CosmeticResources
  unfolding merge_resources_into engine_url_cosmetic_resources
  url_cosmetic_resources w url =
      merge_resources_into (engine_url_cosmetic_resources w.additional_filters_engine url)
        (engine_url_cosmetic_resources w.default_engine url) true

  -- The `hide_selectors` and `force_hide_selectors` of the answer.
  unfoldable pub wrapper_hidden_class_id_selectors :
      EngineWrapper Client Policy
      → List String
      → List String
      → List String
      → List String × List String
  wrapper_hidden_class_id_selectors w classes ids exceptions = (
    hidden_class_id_selectors api same_domain_or_host w.default_engine classes ids exceptions,
    hidden_class_id_selectors api same_domain_or_host w.additional_filters_engine classes ids
        exceptions,
  )

-- One operator of a selector, as the code reads it: a dictionary or not, and its `type` if that is
-- a string.
pub record Operator : Type 0 where
  pub is_dict : Bool
  pub type : Option String

-- A parsed filter: its `selector` list, if it has one.
pub record ProceduralFilter : Type 0 where
  pub selector : Option (List Operator)

-- What the loop does with the entry at the iterator.
pub data Visit : Type 0 where
  -- `continue` with the iterator where it is
  stay : Visit
  -- `it = erase(it); continue`
  remove : Visit
  -- `it++`
  advance : Visit
  -- `list->begin()` with `list` null
  null_dereference : Visit

abbrev visit_operator : Operator → Visit
visit_operator o = elim o.type [
  | none ↦ advance
  | some type ↦ if o.is_dict && not (type =s= "css-selector") then remove else advance
]

-- A list of another size than 1 is removed before its first operator is read.
abbrev visit_selector : Option (List Operator) → Visit
visit_selector none = null_dereference
visit_selector (some []) = remove
visit_selector (some (o ∷ [])) = visit_operator o
visit_selector (some (o ∷ p ∷ rest)) = remove

pub data Stripped : Type 0 where
  nothing_to_do : Stripped
  finished : List Entry → Stripped
  crashed : Stripped
  out_of_fuel : Stripped

-- `read_dict` is base::JSONReader::ReadDict.
module _ (read_dict : String → Option ProceduralFilter) where
  abbrev visit_parsed : Option ProceduralFilter → Visit
  visit_parsed none = advance
  visit_parsed (some filter) = visit_selector filter.selector

  unfoldable pub visit : Entry → Visit
  visit none = stay
  visit (some text) = visit_parsed (read_dict text)

  -- The loop, with the entries that the iterator has passed and those from it on.
  unfoldable pub strip_loop : ℕ → List Entry → List Entry → Stripped
  strip_loop zero passed rest = out_of_fuel
  strip_loop (suc fuel) passed [] = finished passed
  strip_loop (suc fuel) passed (x ∷ rest) = elim (visit x) [
    | stay ↦ strip_loop fuel passed (x ∷ rest)
    | remove ↦ strip_loop fuel passed rest
    | advance ↦ strip_loop fuel (passed ++ x ∷ []) rest
    | null_dereference ↦ crashed
  ]

  -- One round for each entry, and one to see the end.
  abbrev strip_list : Option (List Entry) → Stripped
  strip_list none = nothing_to_do
  strip_list (some actions) = strip_loop (suc (length actions)) [] actions

  unfoldable pub strip_procedural_filters : CosmeticResources → Stripped
  unfolding strip_loop visit
  strip_procedural_filters resources = strip_list resources.procedural_actions
