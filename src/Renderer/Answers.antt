-- ===== src/Renderer/Answers.antt =====
-- Navigations and the browser's answers keep a frame faithful to its page
-- (components/cosmetic_filters/renderer/cosmetic_filters_js_render_frame_observer.cc).

use chromium_adblock.Base.{
  Bool, true, false, ◌==◌, ◌≡◌, refl, sym, ap, subst, some, is_nil, List, [], ◌∷◌, ◌⊎◌, inl, inr,
  arith, if◌then◌else◌,
}
use chromium_adblock.Web.{Gurl, scheme_is_http_or_https}
use chromium_adblock.Renderer.Resources.{PageResources}
use chromium_adblock.Renderer.Handler.{begin_process_url, on_url_cosmetic_resources}
use chromium_adblock.Renderer.Frame.{
  FrameObserver, PendingQuery, url_to_process, send_query, process, commit,
  ready_to_commit_navigation, reply_to, on_query_reply, signal,
}
use chromium_adblock.Renderer.Events.{reply_of}
use chromium_adblock.Renderer.Queries.{IsQueue, commit-IsQueue, ask-IsQueue}
use chromium_adblock.Renderer.Faithful.{IsFaithful}

module _ (answer : Gurl → PageResources) (sync_load : Bool) where
  commit-IsFaithful :
      (url : Gurl) (f : FrameObserver)
      → IsFaithful answer sync_load f
      → IsFaithful answer sync_load (commit url f)
  commit-IsFaithful url f faithful = record {
    applied = faithful.applied;
    exceptions = faithful.exceptions;
    queue = commit-IsQueue f.navigation f.handler.url f.handler.url f.pending faithful.queue;
    quiet = faithful.quiet;
    ready = inl refl;
  }

  quiet-pending :
      (f : FrameObserver) → sync_load ≡ true → IsFaithful answer sync_load f → f.pending ≡ []
  quiet-pending f sync faithful = elim faithful.quiet [
    | inl asynchronous ↦ ground (arith, asynchronous, sync)
    | inr none_left ↦ none_left
  ]

  abbrev begun : Gurl → FrameObserver → FrameObserver
  unfolding begin_process_url
  begun url f = record (commit url f) { handler = (begin_process_url url f.handler).0 }

  send_query-IsFaithful :
      (sync asks : Bool) (url : Gurl) (f : FrameObserver)
      → sync_load ≡ sync
      → IsFaithful answer sync_load f
      → IsFaithful answer sync_load (send_query sync asks url (some (answer url)) (begun url f))
  unfolding begin_process_url on_url_cosmetic_resources
  send_query-IsFaithful sync false url f is_sync faithful = record {
    applied = faithful.applied;
    exceptions = faithful.exceptions;
    queue = commit-IsQueue f.navigation f.handler.url url f.pending faithful.queue;
    quiet = faithful.quiet;
    ready = inl refl;
  }
  send_query-IsFaithful true true url f is_sync faithful = record {
    applied = faithful.applied;
    exceptions = faithful.exceptions;
    queue = commit-IsQueue f.navigation f.handler.url url f.pending faithful.queue;
    quiet = faithful.quiet;
    ready = inr (quiet-pending f is_sync faithful, refl);
  }
  send_query-IsFaithful false true url f is_sync faithful = record {
    applied = faithful.applied;
    exceptions = faithful.exceptions;
    queue = ask-IsQueue f.navigation f.handler.url url f.pending faithful.queue;
    quiet = inl is_sync;
    ready = inl refl;
  }

  choose-IsFaithful :
      (test : Bool) (a b : FrameObserver)
      → IsFaithful answer sync_load a
      → IsFaithful answer sync_load b
      → IsFaithful answer sync_load (if test then a else b)
  choose-IsFaithful true a b p q = p
  choose-IsFaithful false a b p q = q

  pub ready_to_commit_navigation-IsFaithful :
      (origin_url : Gurl) (f : FrameObserver)
      → IsFaithful answer sync_load f
      → IsFaithful answer sync_load (
          ready_to_commit_navigation sync_load origin_url
            (some (answer (url_to_process f.url origin_url)))
            f)
  unfolding ready_to_commit_navigation begin_process_url
  ready_to_commit_navigation-IsFaithful origin_url f faithful =
      let url = url_to_process f.url origin_url in
      choose-IsFaithful (scheme_is_http_or_https url)
        (process sync_load url (some (answer url)) (commit url f)) (commit url f)
        (send_query-IsFaithful sync_load (begin_process_url url f.handler).1 url f refl faithful)
        (commit-IsFaithful url f faithful)

  -- Nothing is to come once `ready_` is signalled.
  pub signaled-ready :
      (f : FrameObserver)
      → f.is_signaled ≡ true
      → IsFaithful answer sync_load f
      → (f.pending ≡ []) × (f.handler.resources_dict ≡ some (answer f.handler.url))
  signaled-ready f signaled faithful = elim faithful.ready [
    | inl unready ↦ ground (arith, unready, signaled)
    | inr known ↦ known
  ]

  answered-IsFaithful :
      (f : FrameObserver) (query : PendingQuery) (later : List PendingQuery)
      → f.pending ≡ query ∷ later
      → IsFaithful answer sync_load f
      → IsFaithful answer sync_load (reply_to (some (answer query.url)) (query ∷ later) f)
  unfolding on_url_cosmetic_resources
  answered-IsFaithful f query later asked faithful =
      by_navigation (query.navigation == f.navigation) refl
        (subst (IsQueue f.navigation f.handler.url) asked faithful.queue)
    where
      answered : FrameObserver
      answered = record f {
        pending = later;
        handler = on_url_cosmetic_resources (some (answer query.url)) f.handler;
      }

      still_quiet : (sync_load ≡ false) ⊎ (later ≡ [])
      still_quiet = elim faithful.quiet [
        | inl asynchronous ↦ inl asynchronous
        | inr none_left ↦ ground (arith, ap is_nil none_left, ap is_nil asked)
      ]

      not_ready : f.is_signaled ≡ false
      not_ready = elim faithful.ready [
        | inl unready ↦ unready
        | inr (none_left, known) ↦ ground (arith, ap is_nil none_left, ap is_nil asked)
      ]

      by_navigation :
          (is_current : Bool)
          → (query.navigation == f.navigation) ≡ is_current
          → IsQueue f.navigation f.handler.url (query ∷ later)
          → IsFaithful answer sync_load (if is_current then signal answered else answered)
      by_navigation true current (inl (old, rest)) = ground (arith, old, current)
      by_navigation true current (inr ((now, at), last)) = record {
        applied = faithful.applied;
        exceptions = faithful.exceptions;
        queue = subst (IsQueue f.navigation f.handler.url) (sym last) tt;
        quiet = still_quiet;
        ready = inr (last, ap (λ url. some (answer url)) at);
      }
      by_navigation false other (inl (old, rest)) = record {
        applied = faithful.applied;
        exceptions = faithful.exceptions;
        queue = rest;
        quiet = still_quiet;
        ready = inl not_ready;
      }
      by_navigation false other (inr ((now, at), last)) = ground (arith, now, other)

  pub on_query_reply-IsFaithful :
      (f : FrameObserver)
      → IsFaithful answer sync_load f
      → IsFaithful answer sync_load (on_query_reply (some (reply_of answer f.pending f.url)) f)
  unfolding on_query_reply
  on_query_reply-IsFaithful f faithful = by_pending f.pending refl
    where
      by_pending :
          (pending : List PendingQuery)
          → f.pending ≡ pending
          → IsFaithful answer sync_load (reply_to (some (reply_of answer pending f.url)) pending f)
      by_pending [] e = faithful
      by_pending (query ∷ later) e = answered-IsFaithful f query later e faithful
