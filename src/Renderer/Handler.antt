-- ===== src/Renderer/Handler.antt =====
-- CosmeticFiltersJSHandler: the rules of a page as scripts and style sheets
-- (components/cosmetic_filters/renderer/cosmetic_filters_js_handler.{h,cc}).
-- V8, mojo and the document are other libraries'; what is done to them is a list of effects.
use Prim.Native.String.{◌++◌ as concat}
use chromium_adblock.Base.{
  String, Bool, true, false, not, ◌||◌, Option, none, some, is_empty, is_nil, List, [], ◌∷◌, ◌++◌,
  if◌then◌else◌,
}
use chromium_adblock.Web.{Gurl}
use chromium_adblock.Context.{empty_gurl}
use chromium_adblock.Wrapper.Cosmetic.{Entry}
use chromium_adblock.Renderer.Resources.{PageResources, HiddenSelectors, strings_in}

-- What is done to the page, in the isolated world: the scripts of kScriptletInitScript and
-- kPreInitScript are known by what is filled in.
pub data PageEffect : Type 0 where
  ran_scriptlets : String → PageEffect
  -- the flag `generichide`, and whether the first polling delay is left undefined
  ran_init : Bool → Bool → PageEffect
  ran_procedural_actions : String → PageEffect
  ran_bundle ran_entry_point ran_element_picker : PageEffect
  inserted_stylesheet : String → PageEffect
  -- a query to the browser about classes and ids, with the exceptions
  asked_hidden_selectors : String → List String → PageEffect

pub record JsHandler : Type 0 where
  pub resources_bound : Bool
  pub url : Gurl
  pub resources_dict : Option PageResources
  pub exceptions : List String
  pub generichide : Bool
  pub bundle_injected : Bool
  pub is_main_frame : Bool
  pub effects : List PageEffect

unfoldable pub new_js_handler : Bool → JsHandler
new_js_handler is_main_frame = record {
  resources_bound = true;
  url = empty_gurl;
  resources_dict = none;
  exceptions = [];
  generichide = false;
  bundle_injected = false;
  is_main_frame = is_main_frame;
  effects = [];
}

abbrev pub act : PageEffect → JsHandler → JsHandler
act e h = record h { effects = h.effects ++ e ∷ [] }

-- EnsureConnected: the interface is always bound afterwards.
abbrev pub ensure_connected : JsHandler → JsHandler
ensure_connected h = record h { resources_bound = true }

unfoldable pub on_remote_disconnect : JsHandler → JsHandler
on_remote_disconnect h = ensure_connected (record h { resources_bound = false })

unfoldable pub inject_stylesheet : String → JsHandler → JsHandler
inject_stylesheet stylesheet h = act (inserted_stylesheet stylesheet) h

unfoldable pub hidden_class_id_selectors_query : String → JsHandler → JsHandler
hidden_class_id_selectors_query input h =
    act (asked_hidden_selectors input h.exceptions) (ensure_connected h)

abbrev pub hide_rule : String → String
hide_rule selector = concat selector "{display:none !important}"

-- The loops that build a style sheet: `stylesheet += selector + "{display:none !important}"`.
unfoldable pub add_rules : String → List Entry → String
add_rules stylesheet [] = stylesheet
add_rules stylesheet (none ∷ entries) = add_rules stylesheet entries
add_rules stylesheet (some selector ∷ entries) =
    add_rules (concat stylesheet (hide_rule selector)) entries

abbrev pub add_rules_in : String → Option (List Entry) → String
add_rules_in stylesheet none = stylesheet
add_rules_in stylesheet (some entries) = add_rules stylesheet entries

-- CSSRulesRoutine. The exceptions of earlier pages stay.
unfoldable pub css_rules_routine : PageResources → JsHandler → JsHandler
unfolding inject_stylesheet add_rules
css_rules_routine resources h =
    let known = record h { exceptions = h.exceptions ++ strings_in resources.exceptions } in
    let stylesheet =
      add_rules_in (add_rules_in "" resources.hide_selectors) resources.force_hide_selectors in
    if is_empty stylesheet then known else inject_stylesheet stylesheet known

unfoldable pub execute_observing_bundle_entry_point : JsHandler → JsHandler
execute_observing_bundle_entry_point h =
    if h.bundle_injected
    then act ran_entry_point h
    else act ran_bundle (record h { bundle_injected = true })

abbrev pub inject_forced : Option (List Entry) → JsHandler → JsHandler
inject_forced none h = h
inject_forced (some entries) h =
    if is_nil entries then h else inject_stylesheet (add_rules "" entries) h

abbrev pub inject_hidden : Option (List Entry) → Option (List Entry) → JsHandler → JsHandler
inject_hidden none force_hide h = h
inject_hidden (some hide) force_hide h =
    inject_stylesheet (add_rules "" hide) (inject_forced force_hide h)

-- OnHiddenClassIdSelectors.
unfoldable pub on_hidden_class_id_selectors : HiddenSelectors → JsHandler → JsHandler
unfolding inject_stylesheet add_rules
on_hidden_class_id_selectors answer h =
    if h.generichide then h else inject_hidden answer.hide_selectors answer.force_hide_selectors h

unfoldable pub launch_content_picker : Bool → JsHandler → JsHandler
launch_content_picker is_provisional h = if is_provisional then h else act ran_element_picker h

-- AddJavaScriptObjectToFrame: a new script context needs the bundle again.
unfoldable pub add_java_script_object_to_frame : JsHandler → JsHandler
add_java_script_object_to_frame h = record h { bundle_injected = false }

abbrev pub flag_or_false : Option Bool → Bool
flag_or_false none = false
flag_or_false (some b) = b

-- `write_json` is base::JSONWriter on the string, `run_script` what the script of the procedural
-- actions returns, where that is a string.
module _ (write_json : String → Option String) (run_script : String → Option String) where
  abbrev pub scriptlet_of : Option String → String
  scriptlet_of none = ""
  scriptlet_of (some script) = elim (write_json script) [ none ↦ "" | some text ↦ text ]

  abbrev pub run_scriptlets : String → JsHandler → JsHandler
  run_scriptlets script h = if is_empty script then h else act (ran_scriptlets script) h

  abbrev pub insert_returned : Option String → JsHandler → JsHandler
  insert_returned none h = h
  insert_returned (some stylesheet) h =
      if is_empty stylesheet then h else inject_stylesheet stylesheet h

  abbrev pub run_procedural_actions : Option String → JsHandler → JsHandler
  run_procedural_actions none h = h
  run_procedural_actions (some script) h =
      insert_returned (run_script script) (act (ran_procedural_actions script) h)

  unfoldable pub apply_resources : PageResources → JsHandler → JsHandler
  unfolding inject_stylesheet
  apply_resources resources h =
      let scripted = run_scriptlets (scriptlet_of resources.injected_script) h in
      let known = record scripted { generichide = flag_or_false resources.generichide } in
      let begun = act (ran_init known.generichide known.is_main_frame) known in
      let acted = run_procedural_actions resources.procedural_actions_script begun in
      css_rules_routine resources (execute_observing_bundle_entry_point acted)

  abbrev pub apply_known : Option PageResources → Bool → JsHandler → JsHandler
  apply_known none is_provisional h = h
  apply_known (some resources) is_provisional h =
      if is_provisional then h else apply_resources resources h

  -- ApplyRules.
  unfoldable pub apply_rules : Bool → JsHandler → JsHandler
  apply_rules is_provisional h = apply_known h.resources_dict is_provisional h

-- ProcessURL up to the query: whether there is one.
unfoldable pub begin_process_url : Gurl → JsHandler → JsHandler × Bool
begin_process_url url h =
    let begun = ensure_connected (record h { resources_dict = none; url = url }) in
    (begun, not (is_empty url.spec || not url.is_valid))

abbrev pub or_kept : Option PageResources → Option PageResources → Option PageResources
or_kept none kept = kept
or_kept (some answer) kept = some answer

-- The answer to the query, where it is a dictionary.
unfoldable pub on_url_cosmetic_resources : Option PageResources → JsHandler → JsHandler
on_url_cosmetic_resources answer h = record (ensure_connected h) {
  resources_dict = or_kept answer h.resources_dict;
}
