-- ===== src/Renderer/Events.antt =====
-- What reaches a frame's observer and its handler
-- (components/cosmetic_filters/renderer/cosmetic_filters_js_render_frame_observer.cc).
use chromium_adblock.Base.{String, Bool, Option, some, List, [], ◌∷◌}
use chromium_adblock.Web.{Gurl}
use chromium_adblock.Renderer.Resources.{PageResources, HiddenSelectors}
use chromium_adblock.Renderer.Handler.{
  hidden_class_id_selectors_query, on_hidden_class_id_selectors, add_java_script_object_to_frame,
  launch_content_picker, inject_stylesheet,
}
use chromium_adblock.Renderer.Frame.{
  FrameObserver, PendingQuery, did_start_navigation, run_scripts_at_document_start, run_posted,
  url_to_process, ready_to_commit_navigation, on_query_reply, on_frame_disconnect,
}

-- The navigations, the document and the answers of the browser; a frame that may be provisional
-- says whether it is.
pub data FrameEvent : Type 0 where
  starts_navigation commits_navigation : Gurl → FrameEvent
  starts_document runs_posted launches_picker : Bool → FrameEvent
  answers_resources disconnects creates_script_context : FrameEvent
  asks_hidden_selectors injects_stylesheet : String → FrameEvent
  answers_hidden_selectors : HiddenSelectors → FrameEvent

-- The first query that waits is answered.
abbrev pub reply_of : (Gurl → PageResources) → List PendingQuery → Gurl → PageResources
reply_of answer [] url = answer url
reply_of answer (query ∷ later) url = answer query.url

-- The browser answers a query for a URL's resources with `answer`.
module _ (write_json : String → Option String) (run_script : String → Option String)
    (sync_load : Bool) (answer : Gurl → PageResources) where
  unfoldable pub frame_step : FrameEvent → FrameObserver → FrameObserver
  unfolding did_start_navigation ready_to_commit_navigation run_scripts_at_document_start run_posted
      on_query_reply on_frame_disconnect add_java_script_object_to_frame launch_content_picker
      hidden_class_id_selectors_query on_hidden_class_id_selectors inject_stylesheet
  frame_step (starts_navigation url) f = did_start_navigation url f
  frame_step (commits_navigation origin_url) f =
      ready_to_commit_navigation sync_load origin_url
        (some (answer (url_to_process f.url origin_url))) f
  frame_step (starts_document is_provisional) f =
      run_scripts_at_document_start write_json run_script is_provisional f
  frame_step (runs_posted is_provisional) f = run_posted write_json run_script is_provisional f
  frame_step (launches_picker is_provisional) f = record f {
    handler = launch_content_picker is_provisional f.handler;
  }
  frame_step answers_resources f = on_query_reply (some (reply_of answer f.pending f.url)) f
  frame_step disconnects f = on_frame_disconnect f
  frame_step creates_script_context f = record f {
    handler = add_java_script_object_to_frame f.handler;
  }
  frame_step (asks_hidden_selectors input) f = record f {
    handler = hidden_class_id_selectors_query input f.handler;
  }
  frame_step (injects_stylesheet stylesheet) f = record f {
    handler = inject_stylesheet stylesheet f.handler;
  }
  frame_step (answers_hidden_selectors selectors) f = record f {
    handler = on_hidden_class_id_selectors selectors f.handler;
  }

  unfoldable pub run_frame : List FrameEvent → FrameObserver → FrameObserver
  run_frame [] f = f
  run_frame (event ∷ events) f = run_frame events (frame_step event f)
