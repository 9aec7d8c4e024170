-- ===== src/Wrapper/Examples.antt =====
-- The properties of the two engines together at concrete inputs.
use chromium_adblock.Base.{
  ℕ, String, Bool, true, false, ◌≡◌, refl, Option, none, some, List, [], ◌∷◌, ◌=s=◌, if◌then◌else◌,
}
use chromium_adblock.Web.{Gurl, script}
use chromium_adblock.Engine.{Engine, EngineApi, should_start_request}
use chromium_adblock.Engine.Examples.{toy_matches, ToyClient, toy, toy_same_domain}
use chromium_adblock.Wrapper.{EngineWrapper, wrapper_should_start_request}
use chromium_adblock.Wrapper.Requests.{
  is_blocked, wrapper_should_start_request_verdict, wrapper_should_start_request_redirect,
}
use chromium_adblock.Wrapper.Cosmetic.{
  Entry, CosmeticResources, ProceduralFilter, finished, out_of_fuel, strip_loop,
  strip_procedural_filters, url_cosmetic_resources, empty_resources,
}
use chromium_adblock.Wrapper.Cosmetic.Strip.{strip_procedural_filters-select, strip_loop-not_string}
use chromium_adblock.Wrapper.Cosmetic.Merge.{
  Complete, url_cosmetic_resources_complete, url_cosmetic_resources_default_unreadable,
}

abbrev pub toy_engine : String → Bool → Engine ToyClient ℕ
toy_engine host is_default = record {
  ad_block_client = record { blocked = host; policy = none; storage = 0 };
  regex_discard_policy = none;
  is_default_engine = is_default;
}

-- The default engine blocks ads.test, the additional one track.test.
abbrev pub toy_wrapper : EngineWrapper ToyClient ℕ
toy_wrapper = record {
  default_engine = toy_engine "ads.test" true;
  additional_filters_engine = toy_engine "track.test" false;
}

abbrev pub https_url : String → Gurl
https_url host = record { spec = host; scheme = "https"; host = host; is_valid = true }

wrapper_should_start_request_verdict_example :
    is_blocked (
      wrapper_should_start_request toy toy_same_domain https_url toy_wrapper
        (https_url "track.test")
        script
        "page.test"
        false
        false
        false)
    ≡ true
unfolding should_start_request
wrapper_should_start_request_verdict_example =
    wrapper_should_start_request_verdict toy toy_same_domain https_url toy_wrapper
      (https_url "track.test") script "page.test" false false false

-- A crate whose engines redirect each request, to the host that they block.
abbrev redirecting : EngineApi ToyClient (List ℕ) ℕ ℕ
redirecting = record toy {
  matches =
      λ c q. record (toy_matches c q) { redirect = record { has_value = true; value = c.blocked } };
}

wrapper_should_start_request_redirect_example :
    (wrapper_should_start_request redirecting toy_same_domain https_url toy_wrapper
      (https_url "ads.test")
      script
      "page.test"
      false
      false
      false).redirect
    ≡ record { has_value = true; value = "track.test" }
unfolding should_start_request
wrapper_should_start_request_redirect_example =
    wrapper_should_start_request_redirect redirecting toy_same_domain https_url toy_wrapper
      (https_url "ads.test") script "page.test" false false false

-- "a" is a plain filter and "b" a procedural one.
abbrev toy_read_dict : String → Option ProceduralFilter
toy_read_dict text =
    if text =s= "a"
    then some
        (record { selector = some (record { is_dict = true; type = some "css-selector" } ∷ []) })
    else if text =s= "b"
    then some (record { selector = some (record { is_dict = true; type = some "has-text" } ∷ []) })
    else none

abbrev two_actions : List Entry
two_actions = some "b" ∷ some "a" ∷ []

abbrev with_actions : CosmeticResources
with_actions = record empty_resources { procedural_actions = some two_actions }

strip_procedural_filters-select_example :
    strip_procedural_filters toy_read_dict with_actions ≡ finished (some "a" ∷ [])
strip_procedural_filters-select_example =
    strip_procedural_filters-select toy_read_dict with_actions two_actions refl (tt, (tt, tt))

strip_loop-not_string_example :
    strip_loop toy_read_dict 100 [] (some "b" ∷ none ∷ some "a" ∷ []) ≡ out_of_fuel
strip_loop-not_string_example =
    strip_loop-not_string toy_read_dict 100 [] (some "b" ∷ []) (some "a" ∷ []) (tt, tt)

abbrev of_host : String → CosmeticResources
of_host host = record {
  hide_selectors = some (some host ∷ []);
  force_hide_selectors = none;
  exceptions = some [];
  procedural_actions = some [];
  injected_script = some host;
  generichide = some false;
}

-- An engine without rules gives nothing that parses.
abbrev toy_read_resources : ToyClient → String → Option CosmeticResources
toy_read_resources c url = if c.blocked =s= "" then none else some (of_host c.blocked)

abbrev of_host-Complete :
    (host : String) → Complete (of_host host) (some host ∷ []) [] [] host false
of_host-Complete host = record {
  has_hide = refl;
  has_no_force = refl;
  has_exceptions = refl;
  has_actions = refl;
  has_script = refl;
  has_generic = refl;
}

url_cosmetic_resources_complete_example :
    (url_cosmetic_resources toy toy_same_domain toy_read_resources toy_wrapper "p").injected_script
    ≡ some "{\nads.test\n}\n{\ntrack.test\n}"
unfolding url_cosmetic_resources
url_cosmetic_resources_complete_example =
    (url_cosmetic_resources_complete toy toy_same_domain toy_read_resources toy_wrapper "p" _ _ _ _
      _ _ _ _ _ _ (of_host-Complete "ads.test") (of_host-Complete "track.test")).4

abbrev half_empty : EngineWrapper ToyClient ℕ
half_empty = record toy_wrapper { default_engine = toy_engine "" true }

url_cosmetic_resources_default_unreadable_example :
    (url_cosmetic_resources toy toy_same_domain toy_read_resources half_empty "p").injected_script
    ≡ none
url_cosmetic_resources_default_unreadable_example =
    (url_cosmetic_resources_default_unreadable toy toy_same_domain toy_read_resources half_empty "p"
      refl).3
