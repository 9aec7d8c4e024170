-- ===== src/Renderer/Kept.antt =====
-- What the operations of CosmeticFiltersJSHandler leave alone
-- (components/cosmetic_filters/renderer/cosmetic_filters_js_handler.cc).
use mathlib.Core.List.{append-nil}
use chromium_adblock.Base.{
  String, Bool, true, false, ◌≡◌, refl, sym, ap, ◌∙◌, subst, Option, none, some, List, [], ◌∷◌,
  ◌++◌, is_empty, is_nil, if◌then◌else◌,
}
use chromium_adblock.Web.{Gurl}
use chromium_adblock.Wrapper.Cosmetic.{Entry}
use chromium_adblock.Renderer.Resources.{PageResources, HiddenSelectors, strings_in}
use chromium_adblock.Renderer.Handler.{
  JsHandler, inject_stylesheet, add_rules, add_rules_in, css_rules_routine,
  execute_observing_bundle_entry_point, inject_forced, inject_hidden, on_hidden_class_id_selectors,
  launch_content_picker, scriptlet_of, run_scriptlets, insert_returned, run_procedural_actions,
  apply_resources, apply_known, apply_rules, act, ran_entry_point, ran_bundle, ran_element_picker,
  ran_scriptlets, ran_procedural_actions, ran_init, flag_or_false,
}
use chromium_adblock.Renderer.Frame.{pages_applied}

-- The exceptions of the pages that rules have been applied to, in order.
abbrev pub exceptions_of : List (Gurl × PageResources) → List String
exceptions_of [] = []
exceptions_of ((url, resources) ∷ pages) = strings_in resources.exceptions ++ exceptions_of pages

-- The handler is on the same page with the same resources, and `more` are the exceptions added.
pub record KeepsPage (more : List String) (h h' : JsHandler) : Type 0 where
  pub url : h'.url ≡ h.url
  pub resources_dict : h'.resources_dict ≡ h.resources_dict
  pub exceptions : h'.exceptions ≡ h.exceptions ++ more

pub KeepsPage-same :
    (h h' : JsHandler)
    → h'.url ≡ h.url
    → h'.resources_dict ≡ h.resources_dict
    → h'.exceptions ≡ h.exceptions
    → KeepsPage [] h h'
KeepsPage-same h h' u r e = record {
  url = u;
  resources_dict = r;
  exceptions = e ∙ sym (append-nil h.exceptions);
}

KeepsPage-trans :
    (more : List String) (h h' h'' : JsHandler)
    → KeepsPage [] h h'
    → KeepsPage more h' h''
    → KeepsPage more h h''
KeepsPage-trans more h h' h'' k l = record {
  url = l.url ∙ k.url;
  resources_dict = l.resources_dict ∙ k.resources_dict;
  exceptions = l.exceptions ∙ ap (λ known. known ++ more) (k.exceptions ∙ append-nil h.exceptions);
}

choose-KeepsPage :
    (test : Bool) (more : List String) (h a b : JsHandler)
    → KeepsPage more h a
    → KeepsPage more h b
    → KeepsPage more h (if test then a else b)
choose-KeepsPage true more h a b k l = k
choose-KeepsPage false more h a b k l = l

KeepsPage-refl : (h : JsHandler) → KeepsPage [] h h
KeepsPage-refl h = KeepsPage-same h h refl refl refl

inject_stylesheet-KeepsPage :
    (stylesheet : String) (h : JsHandler) → KeepsPage [] h (inject_stylesheet stylesheet h)
unfolding inject_stylesheet
inject_stylesheet-KeepsPage stylesheet h =
    KeepsPage-same h (inject_stylesheet stylesheet h) refl refl refl

inject_forced-KeepsPage :
    (entries : Option (List Entry)) (h : JsHandler) → KeepsPage [] h (inject_forced entries h)
inject_forced-KeepsPage none h = KeepsPage-refl h
inject_forced-KeepsPage (some entries) h =
    choose-KeepsPage (is_nil entries) [] h h (inject_stylesheet (add_rules "" entries) h)
      (KeepsPage-refl h) (inject_stylesheet-KeepsPage (add_rules "" entries) h)

inject_hidden-KeepsPage :
    (hide force_hide : Option (List Entry)) (h : JsHandler)
    → KeepsPage [] h (inject_hidden hide force_hide h)
inject_hidden-KeepsPage none force_hide h = KeepsPage-refl h
inject_hidden-KeepsPage (some hide) force_hide h =
    let forced = inject_forced force_hide h in
    KeepsPage-trans [] h forced (inject_stylesheet (add_rules "" hide) forced)
      (inject_forced-KeepsPage force_hide h)
      (inject_stylesheet-KeepsPage (add_rules "" hide) forced)

pub on_hidden_class_id_selectors-KeepsPage :
    (answer : HiddenSelectors) (h : JsHandler)
    → KeepsPage [] h (on_hidden_class_id_selectors answer h)
unfolding on_hidden_class_id_selectors
on_hidden_class_id_selectors-KeepsPage answer h =
    choose-KeepsPage h.generichide [] h h
      (inject_hidden answer.hide_selectors answer.force_hide_selectors h) (KeepsPage-refl h)
      (inject_hidden-KeepsPage answer.hide_selectors answer.force_hide_selectors h)

pub launch_content_picker-KeepsPage :
    (is_provisional : Bool) (h : JsHandler)
    → KeepsPage [] h (launch_content_picker is_provisional h)
unfolding launch_content_picker
launch_content_picker-KeepsPage true h = KeepsPage-refl h
launch_content_picker-KeepsPage false h = KeepsPage-same h (act ran_element_picker h) refl refl refl

execute-KeepsPage : (h : JsHandler) → KeepsPage [] h (execute_observing_bundle_entry_point h)
unfolding execute_observing_bundle_entry_point
execute-KeepsPage h =
    choose-KeepsPage h.bundle_injected [] h (act ran_entry_point h)
      (act ran_bundle (record h { bundle_injected = true }))
      (KeepsPage-same h (act ran_entry_point h) refl refl refl)
      (KeepsPage-same h (act ran_bundle (record h { bundle_injected = true })) refl refl refl)

css_rules_routine-KeepsPage :
    (resources : PageResources) (h : JsHandler)
    → KeepsPage (strings_in resources.exceptions) h (css_rules_routine resources h)
unfolding css_rules_routine inject_stylesheet
css_rules_routine-KeepsPage resources h =
    let known = record h { exceptions = h.exceptions ++ strings_in resources.exceptions } in
    let stylesheet =
      add_rules_in (add_rules_in "" resources.hide_selectors) resources.force_hide_selectors in
    choose-KeepsPage (is_empty stylesheet) (strings_in resources.exceptions) h known
      (inject_stylesheet stylesheet known)
      (record { url = refl; resources_dict = refl; exceptions = refl })
      (record { url = refl; resources_dict = refl; exceptions = refl })

module _ (write_json : String → Option String) (run_script : String → Option String) where
  run_scriptlets-KeepsPage :
      (script : String) (h : JsHandler)
      → KeepsPage [] h (run_scriptlets write_json run_script script h)
  run_scriptlets-KeepsPage script h =
      choose-KeepsPage (is_empty script) [] h h (act (ran_scriptlets script) h) (KeepsPage-refl h)
        (KeepsPage-same h (act (ran_scriptlets script) h) refl refl refl)

  insert_returned-KeepsPage :
      (returned : Option String) (h : JsHandler)
      → KeepsPage [] h (insert_returned write_json run_script returned h)
  insert_returned-KeepsPage none h = KeepsPage-refl h
  insert_returned-KeepsPage (some stylesheet) h =
      choose-KeepsPage (is_empty stylesheet) [] h h (inject_stylesheet stylesheet h)
        (KeepsPage-refl h) (inject_stylesheet-KeepsPage stylesheet h)

  run_procedural_actions-KeepsPage :
      (script : Option String) (h : JsHandler)
      → KeepsPage [] h (run_procedural_actions write_json run_script script h)
  run_procedural_actions-KeepsPage none h = KeepsPage-refl h
  run_procedural_actions-KeepsPage (some script) h =
      let ran = act (ran_procedural_actions script) h in
      KeepsPage-trans [] h ran (insert_returned write_json run_script (run_script script) ran)
        (KeepsPage-same h ran refl refl refl) (insert_returned-KeepsPage (run_script script) ran)

  apply_resources-KeepsPage :
      (resources : PageResources) (h : JsHandler)
      → KeepsPage
          (strings_in resources.exceptions)
          h
          (apply_resources write_json run_script resources h)
  unfolding apply_resources
  apply_resources-KeepsPage resources h =
      let script = scriptlet_of write_json run_script resources.injected_script in
      let scripted = run_scriptlets write_json run_script script h in
      let known = record scripted { generichide = flag_or_false resources.generichide } in
      let begun = act (ran_init known.generichide known.is_main_frame) known in
      let acted =
        run_procedural_actions write_json run_script resources.procedural_actions_script begun in
      let observed = execute_observing_bundle_entry_point acted in
      let more = strings_in resources.exceptions in
      let end = css_rules_routine resources observed in
      KeepsPage-trans more h scripted end (run_scriptlets-KeepsPage script h) (
        KeepsPage-trans more scripted begun end (KeepsPage-same scripted begun refl refl refl) (
          KeepsPage-trans more begun acted end
            (run_procedural_actions-KeepsPage resources.procedural_actions_script begun)
            (KeepsPage-trans more acted observed end (execute-KeepsPage acted)
              (css_rules_routine-KeepsPage resources observed))))

  apply_known-KeepsPage :
      (dict : Option PageResources) (is_provisional : Bool) (h : JsHandler)
      → KeepsPage
          (exceptions_of (pages_applied is_provisional h.url dict))
          h
          (apply_known write_json run_script dict is_provisional h)
  apply_known-KeepsPage none is_provisional h = KeepsPage-refl h
  apply_known-KeepsPage (some resources) true h = KeepsPage-refl h
  apply_known-KeepsPage (some resources) false h =
      subst (λ more. KeepsPage more h (apply_resources write_json run_script resources h))
        (sym (append-nil (strings_in resources.exceptions))) (apply_resources-KeepsPage resources h)

  -- The exceptions of a page are added when its rules are applied, to those that there are.
  pub apply_rules-KeepsPage :
      (is_provisional : Bool) (h : JsHandler)
      → KeepsPage
          (exceptions_of (pages_applied is_provisional h.url h.resources_dict))
          h
          (apply_rules write_json run_script is_provisional h)
  unfolding apply_rules
  apply_rules-KeepsPage is_provisional h = apply_known-KeepsPage h.resources_dict is_provisional h
