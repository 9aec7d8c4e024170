-- ===== src/Socket/Openings.antt =====
-- A started BraveProxyingWebSocket opens no more sockets than it awaits
-- (chrome/browser/net/brave_proxying_web_socket.cc).
use chromium_adblock.Base.{
  ◌&&◌, ℕ, zero, suc, ◌+◌, Bool, true, false, ◌≡◌, refl, subst, sym, Option, none, some, List, [],
  ◌∷◌, arith, if◌then◌else◌,
}
use chromium_adblock.Handler.Types.{NetError, ok}
use chromium_adblock.Context.{Ctx}
use chromium_adblock.Loader.Types.{Net}
use chromium_adblock.Socket.Types.{
  err_failed, Headers, SocketContinuation, to_start_request, to_before_request_complete,
  to_before_send_headers_complete, to_headers_received_complete, SocketEffect,
  connection_established, ProxyingWebSocket, tell_socket,
}
use chromium_adblock.Socket.Steps.{
  on_before_send_headers_complete_from_proxy, on_before_request_complete, with_socket_ctx,
}
use chromium_adblock.Socket.Handshake.{on_before_send_headers, on_connection_established}
use chromium_adblock.Socket.Events.{
  SocketEvent, runs_factory, starts_handshake, requires_auth, establishes_connection, fails,
  sends_headers, receives_headers, proxy_sends_headers, proxy_receives_headers, disconnects,
  completes_event, replies_to_event, overrides_headers, is_bound, continuation_at, without_at,
  continue_socket, complete_event, reply_to_event, handle_started,
}
use chromium_adblock.Socket.Once.{
  opens, tell_socket-used, may_open, may_open_all, Adds, chance, on_error-Adds, Adds-same,
  choose-Adds, continue_to_start_socket-Adds, on_before_send_headers_complete-Adds,
  on_before_send_headers_complete_from_proxy-Adds, on_before_request_complete-Adds,
}
use chromium_adblock.Socket.Steady.{
  tell-Adds, on_headers_received_complete_from_proxy-Adds, on_headers_received_complete-Adds,
  on_socket_headers_received-Adds, on_mojo_connection_error-Adds,
}

module _ (net : Net) where
  -- A continuation that is run is taken out of those that are awaited.
  without_at-may_open :
      (extra : Bool) (place : ℕ) (cs : List SocketContinuation) (c : SocketContinuation)
      → continuation_at place cs ≡ some c
      → may_open extra c + may_open_all extra (without_at place cs) ≡ may_open_all extra cs
  without_at-may_open extra place [] c e = cc
  without_at-may_open extra zero (d ∷ cs) c e = ground arith
  without_at-may_open extra (suc place) (d ∷ cs) c e =
      omega (arith, without_at-may_open extra place cs c e)

  continue_socket-Adds :
      (c : SocketContinuation) (error : NetError) (s : ProxyingWebSocket)
      → s.forwarding_handshake_client_bound ≡ true
      → Adds (may_open s.extra_headers c) s (continue_socket net c error s)
  continue_socket-Adds to_start_request error s started =
      continue_to_start_socket-Adds net error s started
  continue_socket-Adds to_before_request_complete error s started =
      on_before_request_complete-Adds net error s started
  continue_socket-Adds to_before_send_headers_complete error s started =
      on_before_send_headers_complete-Adds net error s started
  continue_socket-Adds to_headers_received_complete error s started =
      on_headers_received_complete-Adds net error s started

  complete_event-Adds :
      (found : Option SocketContinuation) (place : ℕ) (error : NetError) (s : ProxyingWebSocket)
      → s.forwarding_handshake_client_bound ≡ true
      → continuation_at place s.awaiting ≡ found
      → Adds 0 s (complete_event net found place error s)
  complete_event-Adds none place error s started e = Adds-same net 0 s s refl started
  complete_event-Adds (some c) place error s started e =
      let (more, live) =
        continue_socket-Adds c error (record s { awaiting = without_at place s.awaiting })
          started in
      (omega (arith, more, without_at-may_open s.extra_headers place s.awaiting c e), live)

  reply-Adds :
      (ctx : Option Ctx) (reply : Ctx → Ctx) (s : ProxyingWebSocket)
      → s.forwarding_handshake_client_bound ≡ true
      → Adds 0 s (with_socket_ctx s (reply_to_event net reply s) ctx)
  reply-Adds none reply s started = Adds-same net 0 s s refl started
  reply-Adds (some ctx) reply s started =
      Adds-same net 0 s (reply_to_event net reply s ctx) refl started

  -- The proxy for the headers answers only where it is, and there no socket is opened.
  proxy-Adds :
      (error : NetError) (headers : Option Headers) (s : ProxyingWebSocket)
      → s.forwarding_handshake_client_bound ≡ true
      → Adds 0 s (
          if s.extra_headers
          then on_before_send_headers_complete_from_proxy net error headers s
          else s)
  proxy-Adds error headers s started =
      by_extra s.extra_headers
        (on_before_send_headers_complete_from_proxy-Adds net error headers s started)
    where
      by_extra :
          (extra : Bool)
          → Adds
              (chance net extra)
              s
              (on_before_send_headers_complete_from_proxy net error headers s)
          → Adds 0 s
              (if extra then on_before_send_headers_complete_from_proxy net error headers s else s)
      by_extra true p = p
      by_extra false p = Adds-same net 0 s s refl started

  tell_if_bound :
      (bound : Bool) (e : SocketEffect) (s : ProxyingWebSocket)
      → s.forwarding_handshake_client_bound ≡ true
      → opens e ≡ 0
      → Adds 0 s (if bound then tell_socket e s else s)
  tell_if_bound bound e s started silent =
      choose-Adds net bound 0 s _ _ (tell-Adds net e s started silent)
        (Adds-same net 0 s s refl started)

  sends_headers-Adds :
      (extra bound : Bool) (headers : Headers) (s : ProxyingWebSocket)
      → s.forwarding_handshake_client_bound ≡ true
      → extra ≡ s.extra_headers
      → Adds 0 s (if extra && bound then on_before_send_headers net headers s else s)
  unfolding on_before_send_headers
  sends_headers-Adds false bound headers s started e = Adds-same net 0 s s refl started
  sends_headers-Adds true bound headers s started e =
      choose-Adds net bound 0 s _ s
        (subst
          (λ extra. Adds (chance net extra) s (
            on_before_request_complete net ok (record s {
              request = record s.request { headers = headers };
              has_before_send_headers_callback = true;
            })))
          (sym e) (on_before_request_complete-Adds net ok _ started))
        (Adds-same net 0 s s refl started)

  on_connection_established-Adds :
      (s : ProxyingWebSocket) → Adds 0 s (on_connection_established net s)
  unfolding on_connection_established
  on_connection_established-Adds s =
      let (more, gone) = on_error-Adds 0 err_failed (tell_socket connection_established s) in
      (omega (arith, more, tell_socket-used connection_established s), gone)

  pub handle_started-Adds :
      (event : SocketEvent) (s : ProxyingWebSocket)
      → s.forwarding_handshake_client_bound ≡ true
      → Adds 0 s (handle_started net event s)
  unfolding handle_started
  handle_started-Adds (runs_factory trusted headers) s started = Adds-same net 0 s s refl started
  handle_started-Adds starts_handshake s started =
      tell_if_bound (is_bound s.handshake_client) _ s started refl
  handle_started-Adds requires_auth s started =
      tell_if_bound (is_bound s.handshake_client) _ s started refl
  handle_started-Adds establishes_connection s started =
      choose-Adds net (is_bound s.handshake_client) 0 s _ s (on_connection_established-Adds s)
        (Adds-same net 0 s s refl started)
  handle_started-Adds fails s started = Adds-same net 0 s s refl started
  handle_started-Adds (sends_headers headers) s started =
      sends_headers-Adds s.extra_headers (is_bound s.header_client) headers s started refl
  handle_started-Adds (receives_headers headers) s started =
      choose-Adds net (s.extra_headers && is_bound s.header_client) 0 s _ s
        (on_socket_headers_received-Adds net headers s started) (Adds-same net 0 s s refl started)
  handle_started-Adds (proxy_sends_headers error headers) s started =
      proxy-Adds error headers s started
  handle_started-Adds (proxy_receives_headers error headers) s started =
      choose-Adds net s.extra_headers 0 s _ s
        (on_headers_received_complete_from_proxy-Adds net error headers s started)
        (Adds-same net 0 s s refl started)
  handle_started-Adds (disconnects reason description) s started =
      on_mojo_connection_error-Adds net reason description s
  handle_started-Adds (completes_event place error) s started =
      complete_event-Adds (continuation_at place s.awaiting) place error s started refl
  handle_started-Adds (replies_to_event reply) s started = reply-Adds s.ctx reply s started
  handle_started-Adds (overrides_headers headers) s started =
      Adds-same net 0 s (record s { override_headers = some headers }) refl started
