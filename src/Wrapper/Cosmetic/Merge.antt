-- ===== src/Wrapper/Cosmetic/Merge.antt =====
-- What a page gets of the cosmetic resources of the two engines: MergeResourcesInto as
-- UrlCosmeticResources uses it.
use Prim.Native.String.{◌++◌ as concat}
use chromium_adblock.Base.{
  String, Bool, true, false, ◌≡◌, refl, Option, none, some, List, [], ◌++◌, arith,
}
use chromium_adblock.Engine.{EngineApi}
use chromium_adblock.Web.{Gurl}
use chromium_adblock.Wrapper.{EngineWrapper}
use chromium_adblock.Wrapper.Cosmetic.{
  Entry, CosmeticResources, engine_url_cosmetic_resources, url_cosmetic_resources,
  merge_generichide,
}

-- A dictionary as the crate serializes it: every list and the script are there.
pub record Complete (r : CosmeticResources) (hide exceptions actions : List Entry) (script : String)
    (generic : Bool) : Type 0 where
  pub has_hide : r.hide_selectors ≡ some hide
  pub has_no_force : r.force_hide_selectors ≡ none
  pub has_exceptions : r.exceptions ≡ some exceptions
  pub has_actions : r.procedural_actions ≡ some actions
  pub has_script : r.injected_script ≡ some script
  pub has_generic : r.generichide ≡ some generic

abbrev pub or_empty : Option (List Entry) → List Entry
or_empty none = []
or_empty (some l) = l

-- `generichide` is only ever switched on.
abbrev pub switched_on : Bool → Bool → Bool
switched_on true b = true
switched_on false b = b

merge-switched_on : (g g' : Bool) → merge_generichide (some g) (some g') ≡ some (switched_on g g')
merge-switched_on true true = refl
merge-switched_on true false = refl
merge-switched_on false true = refl
merge-switched_on false false = refl

module _ {Client FilterSet Storage Policy : Type 0}
    (api : EngineApi Client FilterSet Storage Policy) (same_domain_or_host : Gurl → String → Bool)
    (read_resources : Client → String → Option CosmeticResources) (w : EngineWrapper Client Policy)
    (url : String) where
  abbrev of_default : CosmeticResources
  of_default =
      engine_url_cosmetic_resources api same_domain_or_host read_resources w.default_engine url

  abbrev of_additional : CosmeticResources
  of_additional =
      engine_url_cosmetic_resources api same_domain_or_host read_resources
        w.additional_filters_engine url

  abbrev of_both : CosmeticResources
  of_both = url_cosmetic_resources api same_domain_or_host read_resources w url

  -- Where both engines answer with complete dictionaries, nothing of either is lost: the selectors
  -- of the default engine are hidden, those of the additional engine forced; exceptions and
  -- procedural actions are those of the default engine, then those of the additional one; both
  -- scripts are there, the default engine's first, each in a block of its own; generic hiding is
  -- off for the page if either says so.
  pub url_cosmetic_resources_complete :
      (hide hide' exceptions exceptions' actions actions' : List Entry) (script script' : String)
      (generic generic' : Bool)
      → Complete of_default hide exceptions actions script generic
      → Complete of_additional hide' exceptions' actions' script' generic'
      → (of_both.hide_selectors ≡ some hide)
        × (of_both.force_hide_selectors ≡ some hide')
        × (of_both.exceptions ≡ some (exceptions ++ exceptions'))
        × (of_both.procedural_actions ≡ some (actions ++ actions'))
        × (of_both.injected_script
            ≡ some (concat "{\n" (concat script (concat "\n}\n{\n" (concat script' "\n}")))))
        × (of_both.generichide ≡ some (switched_on generic generic'))
  unfolding url_cosmetic_resources
  url_cosmetic_resources_complete hide hide' ex ex' ac ac' sc sc' g g' d a =
      rw
        (
          d.has_hide, d.has_no_force, d.has_exceptions, d.has_actions, d.has_script, d.has_generic,
          a.has_hide, a.has_exceptions, a.has_actions, a.has_script, a.has_generic,
        )
        (refl, refl, refl, refl, refl, merge-switched_on g g')

  -- Where the answer of the default engine does not parse, the additional engine's exceptions,
  -- procedural actions and script are dropped, while its selectors are forced all the same.
  pub url_cosmetic_resources_default_unreadable :
      read_resources w.default_engine.ad_block_client url ≡ none
      → (of_both.force_hide_selectors ≡ some (or_empty of_additional.hide_selectors))
        × (of_both.exceptions ≡ none)
        × (of_both.procedural_actions ≡ none)
        × (of_both.injected_script ≡ none)
  unfolding url_cosmetic_resources
  url_cosmetic_resources_default_unreadable e = ground arith
