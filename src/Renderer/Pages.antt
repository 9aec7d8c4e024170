-- ===== src/Renderer/Pages.antt =====
-- Which resources a frame's rules are applied with
-- (components/cosmetic_filters/renderer/cosmetic_filters_js_render_frame_observer.cc).

use chromium_adblock.Base.{
  ℕ, zero, suc, String, Bool, true, false, ◌≡◌, refl, sym, ap, ◌∙◌, subst, Option, some, List, [],
  ◌∷◌, ◌++◌, All, inl, inr, if◌then◌else◌,
}
use chromium_adblock.Web.{Gurl}
use chromium_adblock.Renderer.Resources.{PageResources}
use chromium_adblock.Renderer.Handler.{
  asked_hidden_selectors, on_remote_disconnect, hidden_class_id_selectors_query,
  add_java_script_object_to_frame, inject_stylesheet, apply_rules, new_js_handler,
  launch_content_picker, on_hidden_class_id_selectors,
}
use chromium_adblock.Renderer.Frame.{
  FrameObserver, new_frame_observer, pages_applied, did_start_navigation, apply_now,
  run_scripts_at_document_start, run_first_posted, run_posted, on_frame_disconnect,
}
use chromium_adblock.Renderer.Events.{
  FrameEvent, starts_navigation, commits_navigation, starts_document, runs_posted, launches_picker,
  answers_resources, disconnects, creates_script_context, asks_hidden_selectors, injects_stylesheet,
  answers_hidden_selectors, frame_step, run_frame,
}
use chromium_adblock.Renderer.Kept.{
  exceptions_of, KeepsPage-same, on_hidden_class_id_selectors-KeepsPage,
  launch_content_picker-KeepsPage, apply_rules-KeepsPage,
}
use chromium_adblock.Renderer.Queries.{IsQueue}
use chromium_adblock.Renderer.Faithful.{
  exceptions_of-append, IsFor, IsFaithful, with_handler-IsFaithful, All-append, pages_applied-IsFor,
}
use chromium_adblock.Renderer.Answers.{
  ready_to_commit_navigation-IsFaithful, signaled-ready, on_query_reply-IsFaithful,
}

module _ (answer : Gurl → PageResources) (sync_load : Bool) where
  module _ (write_json : String → Option String) (run_script : String → Option String) where
    apply_now-IsFaithful :
        (is_provisional : Bool) (f : FrameObserver)
        → f.is_signaled ≡ true
        → IsFaithful answer sync_load f
        → IsFaithful answer sync_load (apply_now write_json run_script is_provisional f)
    unfolding apply_now
    apply_now-IsFaithful is_provisional f signaled faithful =
        let (none_left, known) = signaled-ready answer sync_load f signaled faithful in
        let pages = pages_applied is_provisional f.handler.url f.handler.resources_dict in
        let keeps = apply_rules-KeepsPage write_json run_script is_provisional f.handler in
        record {
          applied = All-append answer sync_load f.applied pages faithful.applied (
              pages_applied-IsFor answer sync_load is_provisional f.handler.url
                f.handler.resources_dict known);
          exceptions =
              keeps.exceptions
              ∙ ap (λ before. before ++ exceptions_of pages) faithful.exceptions
              ∙ sym (exceptions_of-append f.applied pages);
          queue =
              subst
                (IsQueue f.navigation
                  (apply_rules write_json run_script is_provisional f.handler).url)
                (sym none_left) tt;
          quiet = inr none_left;
          ready = inr (
            none_left,
            keeps.resources_dict ∙ known ∙ ap (λ url. some (answer url)) (sym keeps.url),
          );
        }

    with_posted-IsFaithful :
        (posted : ℕ) (f : FrameObserver)
        → IsFaithful answer sync_load f
        → IsFaithful answer sync_load (record f { posted = posted })
    with_posted-IsFaithful posted f faithful = record {
      applied = faithful.applied;
      exceptions = faithful.exceptions;
      queue = faithful.queue;
      quiet = faithful.quiet;
      ready = faithful.ready;
    }

    run_first_posted-IsFaithful :
        (is_provisional : Bool) (posted : ℕ) (f : FrameObserver)
        → f.is_signaled ≡ true
        → IsFaithful answer sync_load f
        → IsFaithful answer sync_load
            (run_first_posted write_json run_script is_provisional posted f)
    run_first_posted-IsFaithful is_provisional zero f signaled faithful = faithful
    run_first_posted-IsFaithful is_provisional (suc posted) f signaled faithful =
        apply_now-IsFaithful is_provisional (record f { posted = posted }) signaled
          (with_posted-IsFaithful posted f faithful)

    if_signaled-IsFaithful :
        (f a b : FrameObserver)
        → (f.is_signaled ≡ true → IsFaithful answer sync_load a)
        → IsFaithful answer sync_load b
        → IsFaithful answer sync_load (if f.is_signaled then a else b)
    if_signaled-IsFaithful f a b p q = by_signal f.is_signaled refl
      where
        by_signal :
            (signaled : Bool)
            → f.is_signaled ≡ signaled
            → IsFaithful answer sync_load (if signaled then a else b)
        by_signal true e = p e
        by_signal false e = q

    frame_step-IsFaithful :
        (event : FrameEvent) (f : FrameObserver)
        → IsFaithful answer sync_load f
        → IsFaithful answer sync_load (frame_step write_json run_script sync_load answer event f)
    unfolding frame_step did_start_navigation on_frame_disconnect on_remote_disconnect
        hidden_class_id_selectors_query inject_stylesheet add_java_script_object_to_frame
        run_scripts_at_document_start run_posted
    frame_step-IsFaithful (starts_navigation url) f faithful = record {
      applied = faithful.applied;
      exceptions = faithful.exceptions;
      queue = faithful.queue;
      quiet = faithful.quiet;
      ready = faithful.ready;
    }
    frame_step-IsFaithful (commits_navigation origin_url) f faithful =
        ready_to_commit_navigation-IsFaithful answer sync_load origin_url f faithful
    frame_step-IsFaithful (starts_document is_provisional) f faithful =
        if_signaled-IsFaithful f (apply_now write_json run_script is_provisional f)
          (record f { posted = suc f.posted })
          (λ signaled. apply_now-IsFaithful is_provisional f signaled faithful)
          (with_posted-IsFaithful (suc f.posted) f faithful)
    frame_step-IsFaithful (runs_posted is_provisional) f faithful =
        if_signaled-IsFaithful f (run_first_posted write_json run_script is_provisional f.posted f)
          f (λ signaled. run_first_posted-IsFaithful is_provisional f.posted f signaled faithful)
          faithful
    frame_step-IsFaithful (launches_picker is_provisional) f faithful =
        with_handler-IsFaithful answer sync_load f (launch_content_picker is_provisional f.handler)
          (launch_content_picker-KeepsPage is_provisional f.handler) faithful
    frame_step-IsFaithful answers_resources f faithful =
        on_query_reply-IsFaithful answer sync_load f faithful
    frame_step-IsFaithful disconnects f faithful = record {
      applied = faithful.applied;
      exceptions = faithful.exceptions;
      queue = tt;
      quiet = inr refl;
      ready = elim faithful.ready [
        | inl unready ↦ inl unready
        | inr (none_left, known) ↦ inr (refl, known)
      ];
    }
    frame_step-IsFaithful creates_script_context f faithful =
        with_handler-IsFaithful answer sync_load f (add_java_script_object_to_frame f.handler)
          (KeepsPage-same f.handler (add_java_script_object_to_frame f.handler) refl refl refl)
          faithful
    frame_step-IsFaithful (asks_hidden_selectors input) f faithful =
        with_handler-IsFaithful answer sync_load f (hidden_class_id_selectors_query input f.handler)
          (KeepsPage-same f.handler (hidden_class_id_selectors_query input f.handler) refl refl
            refl)
          faithful
    frame_step-IsFaithful (injects_stylesheet stylesheet) f faithful =
        with_handler-IsFaithful answer sync_load f (inject_stylesheet stylesheet f.handler)
          (KeepsPage-same f.handler (inject_stylesheet stylesheet f.handler) refl refl refl)
          faithful
    frame_step-IsFaithful (answers_hidden_selectors selectors) f faithful =
        with_handler-IsFaithful answer sync_load f
          (on_hidden_class_id_selectors selectors f.handler)
          (on_hidden_class_id_selectors-KeepsPage selectors f.handler) faithful

    run_frame-IsFaithful_from :
        (events : List FrameEvent) (f : FrameObserver)
        → IsFaithful answer sync_load f
        → IsFaithful answer sync_load (run_frame write_json run_script sync_load answer events f)
    unfolding run_frame
    run_frame-IsFaithful_from [] f faithful = faithful
    run_frame-IsFaithful_from (event ∷ events) f faithful =
        run_frame-IsFaithful_from events (frame_step write_json run_script sync_load answer event f)
          (frame_step-IsFaithful event f faithful)

    pub run_frame-IsFaithful :
        (is_main_frame : Bool) (events : List FrameEvent)
        → IsFaithful answer sync_load (
            run_frame write_json run_script sync_load answer events
              (new_frame_observer is_main_frame))
    unfolding new_frame_observer new_js_handler
    run_frame-IsFaithful is_main_frame events =
        run_frame-IsFaithful_from events (new_frame_observer is_main_frame) (record {
          applied = tt;
          exceptions = refl;
          queue = tt;
          quiet = inr refl;
          ready = inl refl;
        })

    -- Over any run of a new frame in which the browser answers the queries in order, each with
    -- the dictionary of the URL asked about, the rules of a page are only ever applied with the
    -- page's own resources, whatever navigations come between a query and its answer.
    pub run_frame-IsFor :
        (is_main_frame : Bool) (events : List FrameEvent)
        → All
            (IsFor answer sync_load)
            (run_frame write_json run_script sync_load answer events
              (new_frame_observer is_main_frame)).applied
    run_frame-IsFor is_main_frame events = (run_frame-IsFaithful is_main_frame events).applied

    -- After any such run a query about classes and ids asks the browser about its input once, with
    -- the exceptions of every page of the frame that rules have been applied to, in order, and not
    -- those of the page the frame is on.
    pub run_frame-exceptions :
        (is_main_frame : Bool) (events : List FrameEvent) (input : String)
        → let end =
            run_frame write_json run_script sync_load answer events
              (new_frame_observer is_main_frame) in
          (hidden_class_id_selectors_query input end.handler).effects
          ≡ end.handler.effects ++ asked_hidden_selectors input (exceptions_of end.applied) ∷ []
    unfolding hidden_class_id_selectors_query
    run_frame-exceptions is_main_frame events input =
        let end =
          run_frame write_json run_script sync_load answer events
            (new_frame_observer is_main_frame) in
        ap (λ known. end.handler.effects ++ asked_hidden_selectors input known ∷ [])
          (run_frame-IsFaithful is_main_frame events).exceptions
