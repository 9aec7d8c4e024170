-- ===== src/Socket/Events.antt =====
-- A BraveProxyingWebSocket under any sequence of messages and replies
-- (chrome/browser/net/brave_proxying_web_socket.cc).
use chromium_adblock.Base.{
  ◌&&◌, ℕ, zero, suc, String, Bool, true, false, Option, none, some, List, [], ◌∷◌, if◌then◌else◌,
}
use chromium_adblock.Handler.Types.{NetError, Handler}
use chromium_adblock.Handler.Events.{run_next_callback}
use chromium_adblock.Context.{Ctx, ResourceRequest, empty_gurl}
use chromium_adblock.Stub.{ResponseHeaders}
use chromium_adblock.Loader.Types.{Receiver, unbound, bound, paused, Net}
use chromium_adblock.Socket.Types.{
  Headers, SocketContinuation, to_start_request, to_before_request_complete,
  to_before_send_headers_complete, to_headers_received_complete, opening_handshake_started,
  auth_required, ProxyingWebSocket, tell_socket,
}
use chromium_adblock.Socket.Steps.{
  leave_socket, with_socket_ctx, continue_to_start_socket, on_before_send_headers_complete,
  on_before_send_headers_complete_from_proxy, on_before_request_complete, start,
}
use chromium_adblock.Socket.Handshake.{
  on_before_send_headers, on_headers_received_complete_from_proxy, on_headers_received_complete,
  on_socket_headers_received, on_connection_established, on_mojo_connection_error,
}

pub data SocketEvent : Type 0 where
  -- the factory that ProxyWebSocket has handed out is run
  runs_factory : Bool → Headers → SocketEvent
  -- the network
  starts_handshake requires_auth establishes_connection fails : SocketEvent
  sends_headers : Headers → SocketEvent
  receives_headers : ResponseHeaders → SocketEvent
  -- the proxy for the headers
  proxy_sends_headers : NetError → Option Headers → SocketEvent
  proxy_receives_headers : NetError → Option String → SocketEvent
  -- either connection is closed
  disconnects : ℕ → String → SocketEvent
  -- the handler: it runs the completion callback at a place of `awaiting`, a callback that had
  -- waited replies, or one replaces the response headers
  completes_event : ℕ → NetError → SocketEvent
  replies_to_event : (Ctx → Ctx) → SocketEvent
  overrides_headers : ResponseHeaders → SocketEvent

abbrev pub is_bound : Receiver → Bool
is_bound unbound = false
is_bound bound = true
is_bound paused = true

abbrev pub continuation_at : ℕ → List SocketContinuation → Option SocketContinuation
continuation_at n [] = none
continuation_at zero (c ∷ cs) = some c
continuation_at (suc n) (c ∷ cs) = continuation_at n cs

abbrev pub without_at : ℕ → List SocketContinuation → List SocketContinuation
without_at n [] = []
without_at zero (c ∷ cs) = cs
without_at (suc n) (c ∷ cs) = c ∷ without_at n cs

module _ (net : Net) where
  abbrev pub continue_socket : SocketContinuation → NetError → ProxyingWebSocket → ProxyingWebSocket
  continue_socket to_start_request error s = continue_to_start_socket net error s
  continue_socket to_before_request_complete error s = on_before_request_complete net error s
  continue_socket to_before_send_headers_complete error s =
      on_before_send_headers_complete net error s
  continue_socket to_headers_received_complete error s = on_headers_received_complete net error s

  abbrev pub complete_event :
      Option SocketContinuation → ℕ → NetError → ProxyingWebSocket → ProxyingWebSocket
  complete_event none place error s = s
  complete_event (some continuation) place error s =
      continue_socket continuation error (record s { awaiting = without_at place s.awaiting })

  abbrev pub reply_to_event : (Ctx → Ctx) → ProxyingWebSocket → Ctx → ProxyingWebSocket
  reply_to_event reply s ctx =
      leave_socket (reply ctx) (run_next_callback net.parse s.handler (reply ctx).context) s

  -- A message comes only over a pipe that is bound; the one for the headers is bound only where
  -- there is a proxy for them.
  unfoldable pub handle_started : SocketEvent → ProxyingWebSocket → ProxyingWebSocket
  handle_started (runs_factory trusted headers) s = s
  handle_started starts_handshake s =
      if is_bound s.handshake_client then tell_socket opening_handshake_started s else s
  handle_started requires_auth s =
      if is_bound s.handshake_client then tell_socket auth_required s else s
  handle_started establishes_connection s =
      if is_bound s.handshake_client then on_connection_established net s else s
  handle_started fails s = s
  handle_started (sends_headers headers) s =
      if s.extra_headers && is_bound s.header_client
      then on_before_send_headers net headers s
      else s
  handle_started (receives_headers headers) s =
      if s.extra_headers && is_bound s.header_client
      then on_socket_headers_received net headers s
      else s
  handle_started (proxy_sends_headers error headers) s =
      if s.extra_headers then on_before_send_headers_complete_from_proxy net error headers s else s
  handle_started (proxy_receives_headers error headers) s =
      if s.extra_headers then on_headers_received_complete_from_proxy net error headers s else s
  handle_started (disconnects reason description) s =
      on_mojo_connection_error net reason description s
  handle_started (completes_event place error) s =
      complete_event (continuation_at place s.awaiting) place error s
  handle_started (replies_to_event reply) s = with_socket_ctx s (reply_to_event reply s) s.ctx
  handle_started (overrides_headers headers) s = record s { override_headers = some headers }

  -- Before the factory is run there is nothing else to reach the socket; it is run once.
  abbrev pub run_factory : SocketEvent → ProxyingWebSocket → ProxyingWebSocket
  run_factory (runs_factory trusted headers) s = start net trusted headers s
  run_factory starts_handshake s = s
  run_factory requires_auth s = s
  run_factory establishes_connection s = s
  run_factory fails s = s
  run_factory (sends_headers headers) s = s
  run_factory (receives_headers headers) s = s
  run_factory (proxy_sends_headers error headers) s = s
  run_factory (proxy_receives_headers error headers) s = s
  run_factory (disconnects reason description) s = s
  run_factory (completes_event place error) s = s
  run_factory (replies_to_event reply) s = s
  run_factory (overrides_headers headers) s = s

  unfoldable pub socket_handle : SocketEvent → ProxyingWebSocket → ProxyingWebSocket
  socket_handle event s =
      if s.forwarding_handshake_client_bound then handle_started event s else run_factory event s

  unfoldable pub socket_deliver : SocketEvent → ProxyingWebSocket → ProxyingWebSocket
  socket_deliver event s = if s.removed then s else socket_handle event s

  unfoldable pub run_socket : List SocketEvent → ProxyingWebSocket → ProxyingWebSocket
  run_socket [] s = s
  run_socket (event ∷ events) s = run_socket events (socket_deliver event s)

  -- The constructor.
  unfoldable pub new_socket : Handler → ℕ → ResourceRequest → ProxyingWebSocket
  new_socket h request_id request = record {
    handler = h;
    request_id = request_id;
    request = request;
    ctx = none;
    redirect_url = empty_gurl;
    extra_headers = false;
    forwarding_handshake_client_bound = false;
    handshake_client = unbound;
    header_client = unbound;
    has_before_send_headers_callback = false;
    has_headers_received_callback = false;
    response_headers = none;
    override_headers = none;
    is_done = false;
    removed = false;
    awaiting = [];
    effects = [];
  }
