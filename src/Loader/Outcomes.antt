-- ===== src/Loader/Outcomes.antt =====
-- A request from its start through the request handler to what its client is told
-- (chrome/browser/net/brave_proxying_url_loader_factory.cc, with brave_request_handler.cc).
use chromium_adblock.Base.{
  String, Bool, true, false, ◌&&◌, ◌≡◌, refl, ap, ◌∙◌, some, [], ◌∷◌, ◌++◌, is_nil, arith,
  if◌then◌else◌, ◌==◌, List, is_empty,
}
use chromium_adblock.Web.{Gurl}
use chromium_adblock.Handler.Types.{
  io_pending, blocked_by_client, EventType, Context, Callback, Handler, Posted, completes,
  null_callback, no_callback,
}
use chromium_adblock.Handler.Loop.{leave, after_callback}
use chromium_adblock.Handler.Events.{
  write_new_url, finish_event, after_chain, run_next_callback, is_internal_scheme, verdict_of,
}
use chromium_adblock.Handler.Chain.{run_rest, run_rest-after_callback}
use chromium_adblock.Handler.Outcomes.{
  posted-run_callback_for_request_identifier, run_next_callback-after_chain,
}
use chromium_adblock.Context.{Ctx, make_ctx}
use chromium_adblock.Loader.Types.{
  pause_receiver, CompletionStatus, completed, InProgressRequest, Net,
}
use chromium_adblock.Loader.Start.{
  is_not_blocked, leave_ctx, status_of, on_request_error, remove_request,
}
use chromium_adblock.Loader.Before.{restart, continue_to_before_send_headers}
use chromium_adblock.Delegate.Types.{RequestInfo, is_ad_blocked, should_mock_request}
use chromium_adblock.Loader.Events.{
  Event, continues, replies, run, to_before_send_headers, deliver, handle,
}
use chromium_adblock.Loader.Waiting.{
  fresh_ctx, start_ctx, armed_handler, armed_handler-keeps, restart-waiting,
}

-- The status of a request that is blocked.
abbrev pub blocked_status : Bool → CompletionStatus
blocked_status collapses = record (status_of blocked_by_client) {
  should_collapse_initiator = collapses;
}

blocked_status-choose :
    (test : Bool)
    → (if test
        then record (status_of blocked_by_client) { should_collapse_initiator = true }
        else status_of blocked_by_client)
      ≡ blocked_status test
blocked_status-choose true = refl
blocked_status-choose false = refl

write_new_url-info :
    (parse : String → Gurl) (h : Handler) (ctx : Context)
    → (write_new_url parse h ctx).info ≡ ctx.info
write_new_url-info parse h ctx = ground arith

deliver-blocked :
    (net : Net) (x : InProgressRequest)
    → x.removed ≡ false
    → deliver net (continues to_before_send_headers blocked_by_client) x
      ≡ on_request_error net (status_of blocked_by_client) x
unfolding deliver handle continue_to_before_send_headers
deliver-blocked net x alive =
    ap
      (λ removed.
        if removed then x else handle net (continues to_before_send_headers blocked_by_client) x)
      alive

module _ (net : Net) (ip : InProgressRequest) where
  -- What the callback leaves of the context, when it waits, and what its reply makes of that.
  abbrev pub left_ctx : RequestInfo → Ctx
  left_ctx info = record (fresh_ctx net ip) { context = leave (start_ctx net ip) info }

  abbrev pub reply_by : (RequestInfo → RequestInfo) → Ctx → Ctx
  reply_by work c = record c { context = record c.context { info = work c.context.info } }

  -- The completions of this request among the tasks that the handler has posted, as they run.
  abbrev pub completions_in : List Posted → List Event
  completions_in [] = []
  completions_in (completes id error ∷ posted) =
      if id == ip.request_id
      then continues to_before_send_headers error ∷ completions_in posted
      else completions_in posted
  completions_in (null_callback ∷ posted) = completions_in posted
  completions_in (no_callback ∷ posted) = completions_in posted

  module _ (callback : Callback) (left : RequestInfo) (work : RequestInfo → RequestInfo)
      (only : ip.handler.before_url_request_callbacks ≡ callback ∷ [])
      (waits_for_reply : callback (start_ctx net ip).info ≡ (io_pending, left)) where
    abbrev asked : InProgressRequest
    asked = record ip {
      handler = (armed_handler net ip);
      ctx = some (left_ctx left);
      proxied_client = pause_receiver ip.proxied_client;
      request_completed = false;
    }

    abbrev replied : Context
    replied = (reply_by work (left_ctx left)).context

    abbrev answered : InProgressRequest
    answered =
        leave_ctx (reply_by work (left_ctx left))
          (finish_event net.parse (armed_handler net ip) replied) asked

    run_next_callback-waits :
        run_next_callback net.parse (armed_handler net ip) (start_ctx net ip)
        ≡ ((armed_handler net ip), leave (start_ctx net ip) left)
    unfolding make_ctx run_rest
    run_next_callback-waits =
        let (same, posted, ready) = armed_handler-keeps net ip in
        run_next_callback-after_chain net.parse (armed_handler net ip) [] (callback ∷ [])
          EventType.on_before_request (same ∙ only) (start_ctx net ip) refl refl refl ready
        ∙ ap (after_chain net.parse (armed_handler net ip) (start_ctx net ip)) (
            run_rest-after_callback callback [] (start_ctx net ip)
            ∙ ap (after_callback (run_rest []) (start_ctx net ip)) waits_for_reply)

    run_next_callback-finishes :
        run_next_callback net.parse (armed_handler net ip) replied
        ≡ finish_event net.parse (armed_handler net ip) replied
    unfolding make_ctx run_rest
    run_next_callback-finishes =
        let (same, posted, ready) = armed_handler-keeps net ip in
        run_next_callback-after_chain net.parse (armed_handler net ip) (callback ∷ []) []
          EventType.on_before_request (same ∙ only) replied refl refl refl ready

    module _ (outside : is_internal_scheme net.extensions (fresh_ctx net ip).context ≡ false)
        (alive : ip.removed ≡ false) where
      restart-asked : restart net ip ≡ asked
      restart-asked =
          restart-waiting net ip (ap is_nil only) outside
          ∙ ap
              (λ end. record (leave_ctx (fresh_ctx net ip) end ip) {
                proxied_client = pause_receiver ip.proxied_client;
                request_completed = false;
              })
              run_next_callback-waits

      replies-answered : deliver net (replies (reply_by work)) (restart net ip) ≡ answered
      unfolding deliver handle
      replies-answered =
          ap (deliver net (replies (reply_by work))) restart-asked
          ∙ ap (λ removed. if removed then asked else handle net (replies (reply_by work)) asked)
              alive
          ∙ ap (λ end. leave_ctx (reply_by work (left_ctx left)) end asked)
              run_next_callback-finishes

      module _ (idle : ip.handler.posted ≡ [])
          (blocked : is_not_blocked (work left).blocked_by ≡ false)
          (no_stand_in : is_empty (work left).mock_data_url ≡ true) where
        verdict_of-replied : verdict_of net.parse replied ≡ blocked_by_client
        unfolding verdict_of should_mock_request
        verdict_of-replied = ground arith

        answered-completions :
            completions_in answered.handler.posted
            ≡ continues to_before_send_headers blocked_by_client ∷ []
        unfolding make_ctx
        answered-completions =
            let (same, posted, ready) = armed_handler-keeps net ip in
            let its_own : (ip.request_id == ip.request_id) ≡ true = ground arith in
            ap completions_in (
              posted-run_callback_for_request_identifier net.parse (armed_handler net ip)
                ip.request_id ip.request_id (verdict_of net.parse replied) refl ready
              ∙ ap (λ before. before ++ completes ip.request_id (verdict_of net.parse replied) ∷ [])
                  (posted ∙ idle)
              ∙ ap (λ rv. completes ip.request_id rv ∷ []) verdict_of-replied)
            ∙ ap
                (λ same_id.
                  if same_id then continues to_before_send_headers blocked_by_client ∷ [] else [])
                its_own

        -- A request that starts, of no internal scheme and with no task posted for it, whose only
        -- callback answers later, as the one that SetupCallbacks installs does for a request that
        -- it has the engines look at: while it waits, its client is told nothing, and the handler
        -- does not complete it. If the reply blocks it and leaves no stand-in's data URL, the
        -- completions that the handler has posted then tell its client of one end, with
        -- ERR_BLOCKED_BY_CLIENT, which says that its element is to collapse exactly if the engines
        -- block it and blocked elements are collapsed; and the request is over, without the
        -- network.
        pub restart_blocks :
            let started = restart net ip in
            let after_reply = deliver net (replies (reply_by work)) started in
            let end = run net (completions_in after_reply.handler.posted) after_reply in
            (started.effects ≡ ip.effects)
            × (started.handler.posted ≡ [])
            × (end.effects
                ≡ ip.effects
                  ++ completed (record {
                    error_code = blocked_by_client;
                    should_collapse_initiator =
                        net.collapse_blocked_elements && is_ad_blocked (work left).blocked_by;
                    encoded_data_length = 0;
                    encoded_body_length = 0;
                    decoded_body_length = 0;
                  })
                    ∷ [])
            × (end.removed ≡ true)
        unfolding run on_request_error remove_request
        restart_blocks =
            let (same, posted, ready) = armed_handler-keeps net ip in
            (
              ap (λ x. x.effects) restart-asked,
              ap (λ x. x.handler.posted) restart-asked ∙ posted ∙ idle,
              ap (λ x. (run net (completions_in x.handler.posted) x).effects) replies-answered
                  ∙ ap (λ events. (run net events answered).effects) answered-completions
                  ∙ ap (λ x. x.effects) (deliver-blocked net answered alive)
                  ∙ ap (λ status. ip.effects ++ completed status ∷ [])
                      (ap
                          (λ info.
                            let test =
                              net.collapse_blocked_elements && is_ad_blocked info.blocked_by in
                            if test
                            then record (status_of blocked_by_client) {
                              should_collapse_initiator = true;
                            }
                            else status_of blocked_by_client)
                          (write_new_url-info net.parse (armed_handler net ip) replied)
                        ∙ blocked_status-choose (
                            net.collapse_blocked_elements && is_ad_blocked (work left).blocked_by)),
              ap (λ x. (run net (completions_in x.handler.posted) x).removed) replies-answered
                  ∙ ap (λ events. (run net events answered).removed) answered-completions
                  ∙ ap (λ x. x.removed) (deliver-blocked net answered alive),
            )
