-- ===== src/Loader/Conformance.antt =====
-- A request keeps the promise of Protocol under any sequence of messages and replies
-- (chrome/browser/net/brave_proxying_url_loader_factory.cc).
use chromium_adblock.Web.{Gurl}
use chromium_adblock.Base.{
  arith, subst, Bool, true, false, ◌≡◌, refl, sym, ap, ◌∙◌, Option, List, [], ◌∷◌, ◌++◌,
  if◌then◌else◌,
}
use mathlib.Core.List.{append-nil, append_assoc}
use chromium_adblock.Handler.Types.{ok}
use chromium_adblock.Loader.Types.{
  HeadersUpdate, upload_progress, transfer_size_updated, Effect, InProgressRequest, Net,
}
use chromium_adblock.Stub.{Content}
use chromium_adblock.Loader.Redirect.{continue_to_before_redirect}
use chromium_adblock.Loader.Before.{restart, to_restart, follow_redirect}
use chromium_adblock.Loader.Response.{
  continue_to_response_started, on_receive_response, on_receive_redirect, on_write, status_for,
  on_client_disconnected,
}
use chromium_adblock.Loader.Events.{
  Event, follows_redirect, sets_priority, loader_disconnects, client_disconnects,
  receives_early_hints, receives_response, receives_redirect, makes_upload_progress,
  updates_transfer_size, completes_load, continues, replies, overrides, writes,
  loses_target_factory, handle, deliver, run, after_write,
}
use chromium_adblock.Loader.Protocol.{
  View, stop, tell, Trace, Refines, Refines-refl, view, input, Conforms, at_end, answers,
}
use chromium_adblock.Loader.Refinement.{
  on_request_error-Refines, continue_to_before_redirect-Refines, with_ctx-Refines, choose-Refines,
  restart-Refines,
}
use chromium_adblock.Loader.Answers.{
  continue_to_response_started-Refines, on_complete-Refines, on_loader_disconnected-Refines,
  set_priority-Refines, continue_to-Refines, handle_response_or_redirect_headers-Refines,
}

module _ (net : Net) where
  -- An event that reaches a request is answered as the promise has it.
  abbrev Answers : Event → InProgressRequest → InProgressRequest → Type 0
  Answers event ip ip' =
      (es : List Effect) × (ip'.effects ≡ ip.effects ++ es)
      × Trace (input event (view ip)) es (view ip')

  input-follows_redirect :
      (update : HeadersUpdate) (new_url : Option Gurl) (v : View)
      → v.done ≡ false
      → input (follows_redirect update new_url) v ≡ record v { told = false }
  input-follows_redirect update new_url v live = ground arith

  after_write-Refines :
      (written : Bool) (bodies : List Content) (ip : InProgressRequest)
      → ip.removed ≡ false
      → Refines ip (after_write net written bodies ip)
  unfolding on_write
  after_write-Refines written [] ip live = Refines-refl ip
  after_write-Refines written (body ∷ later) ip live =
      let rest = record ip { writing = later } in
      choose-Refines net written rest _ _ (on_complete-Refines net (status_for body) rest live)
        (Refines-refl rest)

  handle-Answers :
      (event : Event) (ip : InProgressRequest)
      → ip.removed ≡ false
      → Answers event ip (handle net event ip)
  unfolding handle follow_redirect on_receive_response on_receive_redirect on_client_disconnected
      on_write
  handle-Answers (follows_redirect update new_url) ip live =
      let (es, said, trace) = restart-Refines net (to_restart net update new_url ip) live in
      (
        es,
        said,
        subst (λ v. Trace v es (view (restart net (to_restart net update new_url ip))))
            (sym (input-follows_redirect update new_url (view ip) live)) trace,
      )
  handle-Answers (sets_priority priority intra) ip live =
      set_priority-Refines net priority intra ip live
  handle-Answers (loader_disconnects reason text) ip live =
      on_loader_disconnected-Refines net reason text ip live
  handle-Answers client_disconnects ip live = on_request_error-Refines net _ ip live
  handle-Answers receives_early_hints ip live = Refines-refl ip
  handle-Answers (receives_response head body meta) ip live =
      handle_response_or_redirect_headers-Refines net (continue_to_response_started net ok) _ live
        (continue_to_response_started-Refines net ok)
  handle-Answers (receives_redirect info head) ip live =
      handle_response_or_redirect_headers-Refines net (continue_to_before_redirect net info ok) _
        live (continue_to_before_redirect-Refines net info ok)
  handle-Answers (makes_upload_progress position total) ip live =
      (upload_progress position total ∷ [], refl, tell live refl stop)
  handle-Answers (updates_transfer_size diff) ip live =
      (transfer_size_updated diff ∷ [], refl, tell live refl stop)
  handle-Answers (completes_load status) ip live = on_complete-Refines net status ip live
  handle-Answers (continues continuation error) ip live =
      continue_to-Refines net continuation error ip live
  handle-Answers (replies reply) ip live = with_ctx-Refines net ip.ctx ip _ (λ ctx. Refines-refl ip)
  handle-Answers (overrides headers) ip live = Refines-refl ip
  handle-Answers (writes written) ip live = after_write-Refines written ip.writing ip live
  handle-Answers loses_target_factory ip live = Refines-refl ip

  input-removed : (event : Event) (v : View) → v.done ≡ true → input event v ≡ v
  input-removed (follows_redirect update new_url) v d = rw d
  input-removed (sets_priority priority intra) v d = refl
  input-removed (loader_disconnects reason text) v d = refl
  input-removed client_disconnects v d = refl
  input-removed receives_early_hints v d = refl
  input-removed (receives_response head body meta) v d = refl
  input-removed (receives_redirect info head) v d = refl
  input-removed (makes_upload_progress position total) v d = refl
  input-removed (updates_transfer_size diff) v d = refl
  input-removed (completes_load status) v d = refl
  input-removed (continues continuation error) v d = refl
  input-removed (replies reply) v d = refl
  input-removed (overrides headers) v d = refl
  input-removed (writes written) v d = refl
  input-removed loses_target_factory v d = refl

  deliver-Answers :
      (event : Event) (ip : InProgressRequest) → Answers event ip (deliver net event ip)
  unfolding deliver
  deliver-Answers event ip = by_removed ip.removed refl
    where
      by_removed :
          (removed : Bool)
          → removed ≡ ip.removed
          → Answers event ip (if removed then ip else handle net event ip)
      by_removed false e = handle-Answers event ip (sym e)
      by_removed true e = (
        [],
        sym (append-nil ip.effects),
        subst (λ v. Trace v [] (view ip)) (sym (input-removed event (view ip) (sym e))) stop,
      )

  -- Whatever messages and replies reach a request, in whatever order, the messages that it sends in
  -- turn are those that the promise allows: it makes a loader only where it has none and tells a
  -- loader something only where it has one, it tells a client of no error between a redirect and
  -- the FollowRedirect that answers it, and it sends nothing after its completion.
  pub run_conforms :
      (events : List Event) (ip : InProgressRequest)
      → (es : List Effect) × ((run net events ip).effects ≡ ip.effects ++ es)
        × Conforms (view ip) events es (view (run net events ip))
  unfolding run
  run_conforms [] ip = ([], sym (append-nil ip.effects), at_end)
  run_conforms (event ∷ events) ip =
      let (es, said, trace) = deliver-Answers event ip in
      let (fs, later, rest) = run_conforms events (deliver net event ip) in
      (
        es ++ fs,
        later ∙ ap (λ before. before ++ fs) said ∙ append_assoc ip.effects es fs,
        answers trace rest refl,
      )
