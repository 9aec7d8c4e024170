-- ===== src/Loader/Waiting.antt =====
-- A request that starts, as its callbacks find it
-- (chrome/browser/net/brave_proxying_url_loader_factory.cc).
use chromium_adblock.Base.{
  Bool, true, false, ◌||◌, ◌≡◌, refl, ap, ◌∙◌, Option, none, some, is_nil, arith, if◌then◌else◌,
}
use chromium_adblock.Handler.Types.{
  EventType, Context, Handler, armed, set_completion, on_url_request_destroyed,
}
use chromium_adblock.Handler.Events.{start_event, on_before_url_request, is_internal_scheme}
use chromium_adblock.Context.{Ctx, make_ctx, empty_gurl}
use chromium_adblock.Loader.Types.{pause_receiver, InProgressRequest, Net}
use chromium_adblock.Loader.Start.{destroy_ctx, create_brave_request_info, leave_ctx}
use chromium_adblock.Loader.Before.{restart}

destroy_ctx-keeps :
    (weak : Bool) (ctx : Option Ctx) (h : Handler)
    → ((if weak then destroy_ctx ctx h else h).before_url_request_callbacks
        ≡ h.before_url_request_callbacks)
      × ((if weak then destroy_ctx ctx h else h).posted ≡ h.posted)
unfolding on_url_request_destroyed
destroy_ctx-keeps false ctx h = (refl, refl)
destroy_ctx-keeps true none h = (refl, refl)
destroy_ctx-keeps true (some ctx) h = (refl, refl)

module _ (net : Net) (ip : InProgressRequest) where
  abbrev fresh : InProgressRequest
  unfolding create_brave_request_info
  fresh = create_brave_request_info net (record ip { request_completed = false })

  abbrev pub fresh_ctx : Ctx
  fresh_ctx =
      make_ctx net.origins ip.request ip.request_id net.has_browser_context net.committed ip.ctx

  -- The context with which the callbacks start.
  abbrev pub start_ctx : Context
  start_ctx = record fresh_ctx.context {
    new_url = some empty_gurl;
    event_type = EventType.on_before_request;
  }

  abbrev pub start_handler : Handler
  start_handler = if net.weak_ctx then destroy_ctx ip.ctx ip.handler else ip.handler

  abbrev pub waiting : InProgressRequest
  waiting = record (leave_ctx fresh_ctx (start_event net.parse start_handler start_ctx) ip) {
    proxied_client = pause_receiver ip.proxied_client;
    request_completed = false;
  }

  pub restart-waiting :
      is_nil ip.handler.before_url_request_callbacks ≡ false
      → is_internal_scheme net.extensions fresh_ctx.context ≡ false
      → restart net ip ≡ waiting
  unfolding restart create_brave_request_info on_before_url_request
  restart-waiting some_callback outside =
      let test : (is_nil start_handler.before_url_request_callbacks
            || is_internal_scheme net.extensions fresh_ctx.context)
          ≡ false =
        ap (λ cs. is_nil cs || is_internal_scheme net.extensions fresh_ctx.context)
          (destroy_ctx-keeps net.weak_ctx ip.ctx ip.handler).0
        ∙ ground arith in
      rw test

  abbrev pub armed_handler : Handler
  armed_handler = record start_handler {
    callbacks = set_completion start_handler.callbacks start_ctx.request_identifier armed;
  }

  pub armed_handler-keeps :
      (armed_handler.before_url_request_callbacks ≡ ip.handler.before_url_request_callbacks)
      × (armed_handler.posted ≡ ip.handler.posted)
      × (armed_handler.callbacks ip.request_id ≡ armed)
  unfolding make_ctx
  armed_handler-keeps =
      let (same_callbacks, same_posted) = destroy_ctx-keeps net.weak_ctx ip.ctx ip.handler in
      (same_callbacks, same_posted, ground arith)
