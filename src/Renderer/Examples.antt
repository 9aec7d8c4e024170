-- ===== src/Renderer/Examples.antt =====
-- The properties of a frame's cosmetic rules at concrete inputs.
use chromium_adblock.Base.{◌++◌, All, true, false, ◌≡◌, refl, none, some, List, [], ◌∷◌}
use chromium_adblock.Web.{Gurl, scheme_is_http_or_https}
use chromium_adblock.Wrapper.Examples.{https_url}
use chromium_adblock.Renderer.Resources.{PageResources}
use chromium_adblock.Renderer.Handler.{
  hidden_class_id_selectors_query, asked_hidden_selectors, new_js_handler, apply_rules,
  apply_resources, css_rules_routine, inject_stylesheet, execute_observing_bundle_entry_point,
  begin_process_url, on_url_cosmetic_resources,
}
use chromium_adblock.Renderer.Frame.{
  FrameObserver, new_frame_observer, did_start_navigation, ready_to_commit_navigation, apply_now,
  run_scripts_at_document_start, run_posted, on_query_reply,
}
use chromium_adblock.Renderer.Events.{
  FrameEvent, starts_navigation, commits_navigation, starts_document, runs_posted,
  answers_resources, frame_step, run_frame,
}
use chromium_adblock.Renderer.Faithful.{IsFor}
use chromium_adblock.Renderer.Pages.{run_frame-IsFor, run_frame-exceptions}

-- Each page has one rule and one exception, which name it.
abbrev page_answer : Gurl → PageResources
page_answer url = record {
  injected_script = none;
  generichide = some false;
  procedural_actions_script = none;
  exceptions = some (some url.host ∷ []);
  hide_selectors = some (some ".ad" ∷ none ∷ []);
  force_hide_selectors = none;
}

-- A second navigation comes before the first page's answer, so that the first answer is late.
abbrev visits : List FrameEvent
visits =
    starts_navigation (https_url "first.test")
    ∷ commits_navigation (https_url "first.test")
    ∷ starts_document false
    ∷ answers_resources
    ∷ runs_posted false
    ∷ starts_navigation (https_url "second.test")
    ∷ commits_navigation (https_url "second.test")
    ∷ starts_navigation (https_url "third.test")
    ∷ commits_navigation (https_url "third.test")
    ∷ starts_document false
    ∷ answers_resources
    ∷ runs_posted false
    ∷ answers_resources
    ∷ runs_posted false
    ∷ []

abbrev visited : List (Gurl × PageResources)
visited =
    (https_url "first.test", page_answer (https_url "first.test"))
    ∷ (https_url "third.test", page_answer (https_url "third.test"))
    ∷ []

run_frame-IsFor_example :
    All
      (IsFor page_answer false)
      (run_frame
        (λ text. some text)
        (λ script. none)
        false
        page_answer
        visits
        (new_frame_observer true)).applied
run_frame-IsFor_example =
    run_frame-IsFor page_answer false (λ text. some text) (λ script. none) true visits

abbrev at_third : FrameObserver
at_third =
    run_frame (λ text. some text) (λ script. none) false page_answer visits
      (new_frame_observer true)

-- The exceptions of the first page go with the queries of the third.
run_frame-exceptions_example :
    (hidden_class_id_selectors_query "{}" at_third.handler).effects
    ≡ at_third.handler.effects
      ++ asked_hidden_selectors "{}" ("first.test" ∷ "third.test" ∷ []) ∷ []
unfolding run_frame frame_step did_start_navigation ready_to_commit_navigation
    run_scripts_at_document_start run_posted on_query_reply apply_now apply_rules apply_resources
    css_rules_routine execute_observing_bundle_entry_point inject_stylesheet begin_process_url
    on_url_cosmetic_resources new_frame_observer new_js_handler scheme_is_http_or_https
run_frame-exceptions_example =
    run_frame-exceptions page_answer false (λ text. some text) (λ script. none) true visits "{}"

visits_lem :
    (run_frame
      (λ text. some text)
      (λ script. none)
      false
      page_answer
      visits
      (new_frame_observer true)).applied
    ≡ visited
unfolding run_frame frame_step did_start_navigation ready_to_commit_navigation
    run_scripts_at_document_start run_posted on_query_reply apply_now apply_rules apply_resources
    css_rules_routine execute_observing_bundle_entry_point inject_stylesheet begin_process_url
    on_url_cosmetic_resources new_frame_observer new_js_handler scheme_is_http_or_https
visits_lem = refl
