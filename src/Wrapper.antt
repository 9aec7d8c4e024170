-- ===== src/Wrapper.antt =====
-- AdBlockEngineWrapper (components/brave_shields/content/browser/ad_block_engine_wrapper.{h,cc}):
-- the default and the additional engine behind one interface, and MergeCspDirectiveInto of
-- core/browser/ad_block_service_helper.cc. The cosmetic resources are in `Cosmetic`.
pub mod Requests
pub mod Cosmetic
pub mod Examples
use Prim.Native.String.{◌++◌ as concat}
use chromium_adblock.Base.{
  ℕ, String, Bool, true, false, not, ◌||◌, Option, none, some, List, is_nil, if◌then◌else◌,
}
use chromium_adblock.Web.{Gurl, ResourceType}
use chromium_adblock.Engine.{
  EngineApi, Engine, OptionalString, BlockerResult, DatFileDataBuffer, should_start_request,
  get_csp_directives, use_resources, discard_regex, setup_discard_policy, on_filter_set_loaded,
  load_buffer, serialize, new,
}

pub record EngineWrapper (Client Policy : Type 0) : Type 0 where
  pub default_engine : Engine Client Policy
  pub additional_filters_engine : Engine Client Policy

-- `if (!into.has_value && from.has_value) into = from`.
abbrev keep_or : OptionalString → OptionalString → OptionalString
keep_or into from = if not into.has_value then (if from.has_value then from else into) else into

-- The additional engine's result, with what the default engine found.
unfoldable pub combine : BlockerResult → BlockerResult → BlockerResult
combine result fp_result = record {
  matched = result.matched || fp_result.matched;
  important = result.important || fp_result.important;
  has_exception = result.has_exception || fp_result.has_exception;
  redirect = keep_or result.redirect fp_result.redirect;
  rewritten_url = keep_or result.rewritten_url fp_result.rewritten_url;
}

-- The default engine's result without its removeparam rewrite.
abbrev ignore_rewrite : BlockerResult → BlockerResult
ignore_rewrite r = record r { rewritten_url = record r.rewritten_url { has_value = false } }

unfoldable pub merge_csp_directive_into : Option String → Option String → Option String
merge_csp_directive_into none into = into
merge_csp_directive_into (some from) none = some from
merge_csp_directive_into (some from) (some into) = some (concat from (concat ", " into))

module _ {Client FilterSet Storage Policy : Type 0}
    (api : EngineApi Client FilterSet Storage Policy) (same_domain_or_host : Gurl → String → Bool)
    (parse : String → Gurl) where
  unfoldable pub create : EngineWrapper Client Policy
  create = record {
    default_engine = new api same_domain_or_host true;
    additional_filters_engine = new api same_domain_or_host false;
  }

  -- Both engines are asked, unless the default one finds an important rule.
  unfoldable pub wrapper_should_start_request :
      EngineWrapper Client Policy
      → Gurl
      → ResourceType
      → String
      → Bool
      → Bool
      → Bool
      → BlockerResult
  unfolding combine
  wrapper_should_start_request w url type tab_host rule exception important =
      let fp_result = ignore_rewrite (
        should_start_request api same_domain_or_host w.default_engine url type tab_host rule
          exception important) in
      let request_url =
        if fp_result.rewritten_url.has_value then parse fp_result.rewritten_url.value else url in
      if fp_result.important
      then fp_result
      else combine
          (should_start_request api same_domain_or_host w.additional_filters_engine request_url type
            tab_host (rule || fp_result.matched) (exception || fp_result.has_exception)
            (important || fp_result.important))
          fp_result

  -- The engine that `is_default_engine` names.
  abbrev engine_of : EngineWrapper Client Policy → Bool → Engine Client Policy
  engine_of w is_default = if is_default then w.default_engine else w.additional_filters_engine

  abbrev set_engine :
      EngineWrapper Client Policy → Bool → Engine Client Policy → EngineWrapper Client Policy
  set_engine w true e = record w { default_engine = e }
  set_engine w false e = record w { additional_filters_engine = e }

  -- Without a filter set only the resources are replaced.
  unfoldable pub load :
      EngineWrapper Client Policy
      → Bool
      → Option FilterSet
      → Storage
      → EngineWrapper Client Policy × Bool
  load w is_default none storage = (
    set_engine w is_default
        (use_resources api same_domain_or_host (engine_of w is_default) storage),
    true,
  )
  load w is_default (some filter_set) storage =
      let (e, loaded) =
        on_filter_set_loaded api same_domain_or_host (engine_of w is_default) filter_set storage in
      (set_engine w is_default e, loaded)

  -- An empty buffer counts as success, and replaces only the resources.
  unfoldable pub load_dat :
      EngineWrapper Client Policy
      → Bool
      → DatFileDataBuffer
      → Storage
      → EngineWrapper Client Policy × Bool
  load_dat w is_default dat storage =
      let (e, loaded) =
        load_buffer api same_domain_or_host (engine_of w is_default) true dat storage in
      if is_nil dat
      then (
        set_engine w is_default
            (use_resources api same_domain_or_host (engine_of w is_default) storage),
        true,
      )
      else (set_engine w is_default e, loaded)

  unfoldable pub wrapper_serialize : EngineWrapper Client Policy → Bool → DatFileDataBuffer
  wrapper_serialize w is_default = serialize api same_domain_or_host (engine_of w is_default)

  unfoldable pub wrapper_get_csp_directives :
      EngineWrapper Client Policy → Gurl → ResourceType → String → Option String
  unfolding merge_csp_directive_into
  wrapper_get_csp_directives w url type tab_host =
      merge_csp_directive_into
        (get_csp_directives api same_domain_or_host w.additional_filters_engine url type tab_host)
        (get_csp_directives api same_domain_or_host w.default_engine url type tab_host)

  unfoldable pub wrapper_use_resources :
      EngineWrapper Client Policy → Storage → EngineWrapper Client Policy
  wrapper_use_resources w storage = record {
    default_engine = use_resources api same_domain_or_host w.default_engine storage;
    additional_filters_engine =
        use_resources api same_domain_or_host w.additional_filters_engine storage;
  }

  unfoldable pub wrapper_discard_regex :
      EngineWrapper Client Policy → ℕ → EngineWrapper Client Policy
  wrapper_discard_regex w id = record {
    default_engine = discard_regex api same_domain_or_host w.default_engine id;
    additional_filters_engine =
        discard_regex api same_domain_or_host w.additional_filters_engine id;
  }

  unfoldable pub wrapper_setup_discard_policy :
      EngineWrapper Client Policy → Policy → EngineWrapper Client Policy
  wrapper_setup_discard_policy w policy = record {
    default_engine = setup_discard_policy api same_domain_or_host w.default_engine policy;
    additional_filters_engine =
        setup_discard_policy api same_domain_or_host w.additional_filters_engine policy;
  }
