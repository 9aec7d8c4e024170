-- ===== src/Socket/Handshake.antt =====
-- The handshake of a BraveProxyingWebSocket, as the network tells of it
-- (chrome/browser/net/brave_proxying_web_socket.cc).
use chromium_adblock.Base.{ℕ, String, true, false, Option, none, some, if◌then◌else◌}
use chromium_adblock.Handler.Types.{NetError, ok, io_pending, blocked_by_client, failed}
use chromium_adblock.Handler.Events.{on_headers_received}
use chromium_adblock.Context.{Ctx}
use chromium_adblock.Stub.{ResponseHeaders}
use chromium_adblock.Loader.Types.{pause_receiver, resume_receiver, Net}
use chromium_adblock.Socket.Types.{
  err_failed, Headers, to_headers_received_complete, connection_established,
  client_reset_with_reason, asked_headers_received, answered_headers_received, ProxyingWebSocket,
  tell_socket,
}
use chromium_adblock.Socket.Steps.{
  on_error, leave_socket, with_socket_ctx, after_socket_event, unless_emptied, create_socket_info,
  on_before_request_complete,
}

abbrev pause_receivers : ProxyingWebSocket → ProxyingWebSocket
pause_receivers s = record s {
  handshake_client = pause_receiver s.handshake_client;
  header_client = if s.extra_headers then pause_receiver s.header_client else s.header_client;
}

-- A blocked socket ends before it is paused.
abbrev pub pause_unless_blocked : NetError → ProxyingWebSocket → ProxyingWebSocket
pause_unless_blocked blocked_by_client s = s
pause_unless_blocked ok s = pause_receivers s
pause_unless_blocked io_pending s = pause_receivers s
pause_unless_blocked (failed code) s = pause_receivers s

abbrev pub resume_receivers : ProxyingWebSocket → ProxyingWebSocket
resume_receivers s = record s {
  handshake_client = resume_receiver s.handshake_client;
  header_client = if s.extra_headers then resume_receiver s.header_client else s.header_client;
}

abbrev pub answer_headers_received : Option String → ProxyingWebSocket → ProxyingWebSocket
answer_headers_received headers s =
    if s.has_headers_received_callback
    then tell_socket (answered_headers_received ok headers)
        (record s { has_headers_received_callback = false })
    else s

abbrev pub take_override : Option ResponseHeaders → Option ResponseHeaders → Option ResponseHeaders
take_override none response = response
take_override (some headers) response = some headers

abbrev raw_of : Option ResponseHeaders → String
raw_of none = ""
raw_of (some headers) = headers.raw

module _ (net : Net) where
  unfoldable pub on_before_send_headers : Headers → ProxyingWebSocket → ProxyingWebSocket
  on_before_send_headers headers s = on_before_request_complete net ok (record s {
    request = record s.request { headers = headers };
    has_before_send_headers_callback = true;
  })

  -- An error of the proxy does not get through: the network is told OK.
  unfoldable pub on_headers_received_complete_from_proxy :
      NetError → Option String → ProxyingWebSocket → ProxyingWebSocket
  on_headers_received_complete_from_proxy error headers s =
      let answered = answer_headers_received headers s in
      resume_receivers (record answered {
        response_headers = take_override s.override_headers s.response_headers;
        override_headers = none;
      })

  unfoldable pub on_headers_received_complete : NetError → ProxyingWebSocket → ProxyingWebSocket
  on_headers_received_complete ok s =
      if s.extra_headers
      then tell_socket (asked_headers_received (raw_of s.override_headers)) s
      else on_headers_received_complete_from_proxy ok (some (raw_of s.override_headers)) s
  on_headers_received_complete error s = on_error error s

  abbrev pub socket_headers_received : ProxyingWebSocket → Ctx → ProxyingWebSocket
  socket_headers_received s ctx =
      let (rv, h, context) = on_headers_received net.parse s.handler ctx.context in
      let left = leave_socket ctx (h, context) s in
      unless_emptied rv left (
        after_socket_event to_headers_received_complete (on_headers_received_complete ok) rv
          (pause_unless_blocked rv left))

  -- OnHeadersReceived and ContinueToHeadersReceived.
  unfoldable pub on_socket_headers_received :
      ResponseHeaders → ProxyingWebSocket → ProxyingWebSocket
  on_socket_headers_received headers s =
      let fresh =
        create_socket_info net
          (record s { response_headers = some headers; has_headers_received_callback = true }) in
      with_socket_ctx fresh (socket_headers_received fresh) fresh.ctx

  -- The connection is handed on, and the proxy has done its work.
  unfoldable pub on_connection_established : ProxyingWebSocket → ProxyingWebSocket
  on_connection_established s = on_error err_failed (tell_socket connection_established s)

  unfoldable pub on_mojo_connection_error : ℕ → String → ProxyingWebSocket → ProxyingWebSocket
  on_mojo_connection_error reason description s = on_error err_failed (
      if s.forwarding_handshake_client_bound
      then tell_socket (client_reset_with_reason reason description)
          (record s { forwarding_handshake_client_bound = false })
      else s)
