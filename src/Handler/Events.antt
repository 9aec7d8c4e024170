-- ===== src/Handler/Events.antt =====
-- RunNextCallback and the entry points of BraveRequestHandler
-- (chrome/browser/net/brave_request_handler.{h,cc}).
use chromium_adblock.Base.{
  String, Bool, true, false, not, ◌&&◌, ◌||◌, ◌=s=◌, none, some, is_empty, is_nil, if◌then◌else◌,
}
use chromium_adblock.Web.{Gurl}
use chromium_adblock.Delegate.Types.{
  BlockedBy, not_blocked, ad_blocked, other_blocked, should_mock_request,
}
use chromium_adblock.Handler.Types.{
  NetError, ok, io_pending, blocked_by_client, EventType, Context, Handler, armed, set_completion,
  is_request_identifier_valid, run_callback_for_request_identifier,
}
use chromium_adblock.Handler.Loop.{ChainEnd, waits, returns, out_of_bounds, out_of_fuel, run_event}

abbrev pub is_before_request : EventType → Bool
is_before_request EventType.on_before_request = true
is_before_request _ = false

abbrev pub is_blocked_by : BlockedBy → Bool
is_blocked_by not_blocked = false
is_blocked_by ad_blocked = true
is_blocked_by other_blocked = true

-- IsInternalScheme; `extensions` is the build flag ENABLE_EXTENSIONS.
unfoldable pub is_internal_scheme : Bool → Context → Bool
is_internal_scheme extensions ctx =
    (extensions && ctx.info.request_url.scheme =s= "chrome-extension")
    || ctx.info.request_url.scheme =s= "chrome"

module _ (parse : String → Gurl) where
  -- `*ctx->new_url() = GURL(ctx->new_url_spec())`, where it is another URL than the request's.
  abbrev pub write_new_url : Handler → Context → Context
  write_new_url h ctx =
      if not (is_empty ctx.info.new_url_spec)
        && (not (ctx.info.new_url_spec =s= ctx.info.request_url.spec)
            && is_request_identifier_valid h ctx.request_identifier)
      then record ctx { new_url = some (parse ctx.info.new_url_spec) }
      else ctx

  -- What a finished event tells the network stack.
  unfoldable pub verdict_of : Context → NetError
  verdict_of ctx =
      if is_before_request ctx.event_type
        && (is_blocked_by ctx.info.blocked_by && not (should_mock_request ctx.info))
      then blocked_by_client
      else ok

  abbrev pub finish_event : Handler → Context → Handler × Context
  finish_event h ctx = (
    run_callback_for_request_identifier h ctx.request_identifier (verdict_of ctx),
    if is_before_request ctx.event_type then write_new_url h ctx else ctx,
  )

  abbrev pub after_chain : Handler → Context → ChainEnd → Handler × Context
  after_chain h ctx (waits left) = (h, left)
  after_chain h ctx (returns ok left) = finish_event h left
  after_chain h ctx (returns rv left) =
      (run_callback_for_request_identifier h left.request_identifier rv, left)
  after_chain h ctx out_of_bounds = (h, ctx)
  after_chain h ctx out_of_fuel = (h, ctx)

  -- RunNextCallback, for a context that is still there; for one that is gone it does nothing.
  unfoldable pub run_next_callback : Handler → Context → Handler × Context
  unfolding is_request_identifier_valid
  run_next_callback h ctx =
      if not (is_request_identifier_valid h ctx.request_identifier)
      then (h, ctx)
      else elim ctx.pending_error [
        | some error ↦ (run_callback_for_request_identifier h ctx.request_identifier error, ctx)
        | none ↦ after_chain h ctx (run_event h ctx.event_type ctx)
      ]

  -- `callbacks_[id] = std::move(callback)`, and the first RunNextCallback.
  abbrev pub start_event : Handler → Context → Handler × Context
  start_event h ctx =
      run_next_callback
        (record h { callbacks = set_completion h.callbacks ctx.request_identifier armed }) ctx

  -- OnBeforeURLRequest; the result says whether the caller waits.
  unfoldable pub on_before_url_request :
      Bool → Handler → Context → Gurl → NetError × Handler × Context
  unfolding run_next_callback is_internal_scheme
  on_before_url_request extensions h ctx new_url =
      if is_nil h.before_url_request_callbacks || is_internal_scheme extensions ctx
      then (ok, h, ctx)
      else let (h', ctx') =
          start_event h
            (record ctx { new_url = some new_url; event_type = EventType.on_before_request }) in
        (io_pending, h', ctx')

  unfoldable pub on_before_start_transaction :
      Bool → Handler → Context → NetError × Handler × Context
  unfolding run_next_callback is_internal_scheme
  on_before_start_transaction extensions h ctx =
      if is_nil h.before_start_transaction_callbacks || is_internal_scheme extensions ctx
      then (ok, h, ctx)
      else let (h', ctx') =
          start_event h (record ctx { event_type = EventType.on_before_start_transaction }) in
        (io_pending, h', ctx')

  -- OnHeadersReceived; the pointers to the headers are handed on, and not modelled.
  unfoldable pub on_headers_received : Handler → Context → NetError × Handler × Context
  unfolding run_next_callback
  on_headers_received h ctx =
      if is_nil h.headers_received_callbacks && not (ctx.info.request_url.scheme =s= "chrome")
      then (ok, h, ctx)
      else let (h', ctx') =
          start_event h (record ctx { event_type = EventType.on_headers_received }) in
        (io_pending, h', ctx')
