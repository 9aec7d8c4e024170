-- ===== src/Renderer/Frame.antt =====
-- CosmeticFiltersJsRenderFrameObserver: the navigations of a frame around its handler
-- (components/cosmetic_filters/renderer/cosmetic_filters_js_render_frame_observer.{h,cc}).
use chromium_adblock.Base.{
  ℕ, zero, suc, String, Bool, true, false, not, ◌||◌, ◌==◌, ◌=s=◌, Option, none, some, is_empty,
  List, [], ◌∷◌, ◌++◌, if◌then◌else◌,
}
use chromium_adblock.Web.{Gurl, scheme_is_http_or_https}
use chromium_adblock.Context.{empty_gurl}
use chromium_adblock.Renderer.Resources.{PageResources}
use chromium_adblock.Renderer.Handler.{
  JsHandler, new_js_handler, on_remote_disconnect, apply_rules, begin_process_url,
  on_url_cosmetic_resources,
}

-- A query for the resources of a URL that has not been answered; `navigation` counts the
-- invalidations of the weak pointers, by which a late answer is known.
pub record PendingQuery : Type 0 where
  pub navigation : ℕ
  pub url : Gurl

-- The observer. `ready_` is whether it is signalled and how often ApplyRules is posted on it;
-- `applied` are the pages that rules have been applied to, and the resources they were.
pub record FrameObserver : Type 0 where
  pub handler : JsHandler
  pub url : Gurl
  pub navigation : ℕ
  pub is_signaled : Bool
  pub posted : ℕ
  pub pending : List PendingQuery
  pub applied : List (Gurl × PageResources)

unfoldable pub new_frame_observer : Bool → FrameObserver
unfolding new_js_handler
new_frame_observer is_main_frame = record {
  handler = new_js_handler is_main_frame;
  url = empty_gurl;
  navigation = 0;
  is_signaled = false;
  posted = 0;
  pending = [];
  applied = [];
}

unfoldable pub did_start_navigation : Gurl → FrameObserver → FrameObserver
did_start_navigation url f = record f { url = url }

-- What ApplyRules is done with, which is nothing on a provisional frame or without resources.
abbrev pub pages_applied : Bool → Gurl → Option PageResources → List (Gurl × PageResources)
pages_applied is_provisional url none = []
pages_applied is_provisional url (some resources) =
    if is_provisional then [] else (url, resources) ∷ []

module _ (write_json : String → Option String) (run_script : String → Option String) where
  -- ApplyRules.
  unfoldable pub apply_now : Bool → FrameObserver → FrameObserver
  apply_now is_provisional f = record f {
    handler = apply_rules write_json run_script is_provisional f.handler;
    applied = f.applied ++ pages_applied is_provisional f.handler.url f.handler.resources_dict;
  }

  unfoldable pub run_scripts_at_document_start : Bool → FrameObserver → FrameObserver
  unfolding apply_now
  run_scripts_at_document_start is_provisional f =
      if f.is_signaled then apply_now is_provisional f else record f { posted = suc f.posted }

  abbrev pub run_first_posted : Bool → ℕ → FrameObserver → FrameObserver
  run_first_posted is_provisional zero f = f
  run_first_posted is_provisional (suc posted) f =
      apply_now is_provisional (record f { posted = posted })

  -- A task that is posted on `ready_` runs some time after the signal.
  unfoldable pub run_posted : Bool → FrameObserver → FrameObserver
  unfolding apply_now
  run_posted is_provisional f =
      if f.is_signaled then run_first_posted is_provisional f.posted f else f

-- `ready_->Signal()`.
abbrev pub signal : FrameObserver → FrameObserver
signal f = record f { is_signaled = true }

-- URLs that fall back to those of the frame's origin.
abbrev pub url_to_process : Gurl → Gurl → Gurl
url_to_process url origin_url =
    if is_empty url.spec || (not url.is_valid || url.spec =s= "about:blank")
    then origin_url
    else url

-- The query of ProcessURL; a synchronous one is answered at once, by `answer`.
abbrev pub send_query : Bool → Bool → Gurl → Option PageResources → FrameObserver → FrameObserver
send_query sync_load false url answer f = f
send_query true true url answer f =
    signal (record f { handler = on_url_cosmetic_resources answer f.handler })
send_query false true url answer f = record f {
  pending = f.pending ++ record { navigation = f.navigation; url = url } ∷ [];
}

abbrev pub process : Bool → Gurl → Option PageResources → FrameObserver → FrameObserver
process sync_load url answer f =
    let (h, asks) = begin_process_url url f.handler in
    send_query sync_load asks url answer (record f { handler = h })

-- A new `ready_`; the weak pointers are invalidated, so that what is posted is dropped.
abbrev pub commit : Gurl → FrameObserver → FrameObserver
commit url f = record f {
  url = url;
  navigation = suc f.navigation;
  is_signaled = false;
  posted = 0;
}

-- ReadyToCommitNavigation.
unfoldable pub ready_to_commit_navigation :
    Bool → Gurl → Option PageResources → FrameObserver → FrameObserver
unfolding begin_process_url on_url_cosmetic_resources
ready_to_commit_navigation sync_load origin_url answer f =
    let url = url_to_process f.url origin_url in
    if scheme_is_http_or_https url
    then process sync_load url answer (commit url f)
    else commit url f

-- The first query that waits is answered; OnProcessURL is bound to a weak pointer.
abbrev pub reply_to : Option PageResources → List PendingQuery → FrameObserver → FrameObserver
reply_to answer [] f = f
reply_to answer (query ∷ later) f =
    let answered = record f {
      pending = later;
      handler = on_url_cosmetic_resources answer f.handler;
    } in
    if query.navigation == f.navigation then signal answered else answered

unfoldable pub on_query_reply : Option PageResources → FrameObserver → FrameObserver
unfolding on_url_cosmetic_resources
on_query_reply answer f = reply_to answer f.pending f

-- The pipe to the browser breaks: the answers to what was asked never come.
unfoldable pub on_frame_disconnect : FrameObserver → FrameObserver
unfolding on_remote_disconnect
on_frame_disconnect f = record f { pending = []; handler = on_remote_disconnect f.handler }
