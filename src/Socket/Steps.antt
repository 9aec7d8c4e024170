-- ===== src/Socket/Steps.antt =====
-- The operations of a BraveProxyingWebSocket (chrome/browser/net/brave_proxying_web_socket.cc).
use chromium_adblock.Base.{Bool, true, false, ◌=s=◌, Option, none, some, [], ◌∷◌, if◌then◌else◌}
use chromium_adblock.Web.{Gurl}
use chromium_adblock.Handler.Types.{
  NetError, ok, io_pending, blocked_by_client, failed, Context, Handler,
}
use chromium_adblock.Handler.Events.{on_before_url_request, on_before_start_transaction}
use chromium_adblock.Context.{Ctx, make_ctx, empty_gurl}
use chromium_adblock.Loader.Types.{err_aborted, Receiver, bound, Net}
use chromium_adblock.Loader.Start.{destroy_ctx}
use chromium_adblock.Socket.Types.{
  empty_data_uri, Headers, SocketContinuation, to_start_request, to_before_request_complete,
  to_before_send_headers_complete, created_socket, asked_before_send_headers,
  answered_before_send_headers, answered_headers_received, ProxyingWebSocket, tell_socket,
}

abbrev pub abort_before_send_headers : Bool → ProxyingWebSocket → ProxyingWebSocket
abort_before_send_headers true s =
    tell_socket (answered_before_send_headers err_aborted none)
      (record s { has_before_send_headers_callback = false })
abort_before_send_headers false s = s

abbrev pub abort_headers_received : Bool → ProxyingWebSocket → ProxyingWebSocket
abort_headers_received true s =
    tell_socket (answered_headers_received err_aborted none)
      (record s { has_headers_received_callback = false })
abort_headers_received false s = s

-- The destructor: the callbacks that have not been run are aborted.
unfoldable pub destroy : ProxyingWebSocket → ProxyingWebSocket
destroy s = abort_headers_received s.has_headers_received_callback (
    abort_before_send_headers s.has_before_send_headers_callback
      (record s { handler = destroy_ctx s.ctx s.handler; removed = true }))

-- OnError; `on_disconnect_` deletes the socket.
unfoldable pub on_error : NetError → ProxyingWebSocket → ProxyingWebSocket
unfolding destroy
on_error error s = destroy (record s { is_done = true })

-- What an event of the handler leaves: a URL that it has written is `redirect_url_`.
abbrev pub written : Option Gurl → Gurl → Gurl
written none url = url
written (some new_url) url = new_url

abbrev pub leave_socket : Ctx → Handler × Context → ProxyingWebSocket → ProxyingWebSocket
leave_socket ctx (h, context) s = record s {
  handler = h;
  ctx = some (record ctx { context = context });
  redirect_url = written context.new_url s.redirect_url;
}

abbrev pub with_socket_ctx :
    ProxyingWebSocket → (Ctx → ProxyingWebSocket) → Option Ctx → ProxyingWebSocket
with_socket_ctx s use_ctx none = s
with_socket_ctx s use_ctx (some ctx) = use_ctx ctx

-- What is done with the result of a handler's entry point.
abbrev pub after_socket_event :
    SocketContinuation
    → (ProxyingWebSocket → ProxyingWebSocket)
    → NetError
    → ProxyingWebSocket
    → ProxyingWebSocket
after_socket_event continuation go_on blocked_by_client s = on_error blocked_by_client s
after_socket_event continuation go_on io_pending s = record s {
  awaiting = continuation ∷ s.awaiting;
}
after_socket_event continuation go_on ok s = go_on s
after_socket_event continuation go_on (failed code) s = go_on s

-- The same where a redirect to kEmptyDataURI is an error too.
abbrev pub unless_emptied : NetError → ProxyingWebSocket → ProxyingWebSocket → ProxyingWebSocket
unless_emptied error s next =
    if s.redirect_url.spec =s= empty_data_uri then on_error error s else next

abbrev pub bind_if : Bool → Receiver → Receiver
bind_if true r = bound
bind_if false r = r

-- A callback of the network is run once.
abbrev pub answer_before_send_headers : ProxyingWebSocket → ProxyingWebSocket
answer_before_send_headers s =
    if s.has_before_send_headers_callback
    then tell_socket (answered_before_send_headers ok (some s.request.headers))
        (record s { has_before_send_headers_callback = false })
    else s

abbrev or_headers : Option Headers → Headers
or_headers none = []
or_headers (some headers) = headers

module _ (net : Net) where
  unfoldable pub create_socket_info : ProxyingWebSocket → ProxyingWebSocket
  create_socket_info s = record s {
    handler = if net.weak_ctx then destroy_ctx s.ctx s.handler else s.handler;
    ctx =
        some
          (make_ctx net.origins s.request s.request_id net.has_browser_context net.committed s.ctx);
  }

  -- ContinueToStartRequest: the socket is made, and its ends are bound.
  unfoldable pub continue_to_start_socket : NetError → ProxyingWebSocket → ProxyingWebSocket
  continue_to_start_socket ok s =
      tell_socket (created_socket s.request.url (if s.extra_headers then [] else s.request.headers))
        (record s {
          handshake_client = bound;
          header_client = bind_if s.extra_headers s.header_client;
        })
  continue_to_start_socket error s = on_error error s

  unfoldable pub on_before_send_headers_complete : NetError → ProxyingWebSocket → ProxyingWebSocket
  on_before_send_headers_complete ok s =
      let answered = answer_before_send_headers s in
      if s.extra_headers then answered else continue_to_start_socket ok answered
  on_before_send_headers_complete error s = on_error error s

  abbrev start_socket_transaction : ProxyingWebSocket → Ctx → ProxyingWebSocket
  start_socket_transaction s ctx =
      let (rv, h, context) =
        on_before_start_transaction net.parse net.extensions s.handler ctx.context in
      after_socket_event to_before_send_headers_complete (on_before_send_headers_complete ok) rv
        (leave_socket ctx (h, context) s)

  unfoldable pub on_before_send_headers_complete_from_proxy :
      NetError → Option Headers → ProxyingWebSocket → ProxyingWebSocket
  on_before_send_headers_complete_from_proxy ok headers s =
      let fresh =
        create_socket_info
          (record s { request = record s.request { headers = or_headers headers } }) in
      with_socket_ctx fresh (start_socket_transaction fresh) fresh.ctx
  on_before_send_headers_complete_from_proxy error headers s = on_error error s

  unfoldable pub on_before_request_complete : NetError → ProxyingWebSocket → ProxyingWebSocket
  on_before_request_complete ok s =
      let direct = on_before_send_headers_complete_from_proxy ok (some s.request.headers) s in
      if s.extra_headers
      then tell_socket (asked_before_send_headers s.request.headers) s
      else direct
  on_before_request_complete error s = on_error error s

  abbrev pub set_each : Headers → Headers → Headers
  set_each [] headers = headers
  set_each ((name, value) ∷ more) headers = set_each more (net.set_header headers name value)

  abbrev pub begin_with : Bool → SocketContinuation
  begin_with true = to_start_request
  begin_with false = to_before_request_complete

  abbrev pub run_begin : Bool → ProxyingWebSocket → ProxyingWebSocket
  run_begin true s = continue_to_start_socket ok s
  run_begin false s = on_before_request_complete ok s

  abbrev pub before_socket_request : ProxyingWebSocket → Ctx → ProxyingWebSocket
  before_socket_request s ctx =
      let (rv, h, context) =
        on_before_url_request net.parse net.extensions s.handler ctx.context empty_gurl in
      let left = leave_socket ctx (h, context) s in
      unless_emptied rv left
        (after_socket_event (begin_with s.extra_headers) (run_begin s.extra_headers) rv left)

  -- Start, with WebSocketFactoryRun before it: the headers go to the request where there is no
  -- proxy for them.
  unfoldable pub start : Bool → Headers → ProxyingWebSocket → ProxyingWebSocket
  start trusted_header_client additional_headers s =
      let fresh = create_socket_info (record s {
        forwarding_handshake_client_bound = true;
        extra_headers = trusted_header_client;
        request =
            if trusted_header_client
            then s.request
            else record s.request { headers = set_each additional_headers s.request.headers };
      }) in
      with_socket_ctx fresh (before_socket_request fresh) fresh.ctx
