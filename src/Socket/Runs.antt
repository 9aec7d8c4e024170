-- ===== src/Socket/Runs.antt =====
-- Over any run a BraveProxyingWebSocket opens at most one socket
-- (chrome/browser/net/brave_proxying_web_socket.cc).
use chromium_adblock.Base.{
  ℕ, ◌≤◌, Bool, true, false, ◌||◌, ◌≡◌, refl, sym, ap, Option, none, some, List, [], ◌∷◌, arith,
  if◌then◌else◌, ◌⊎◌, inl, inr,
}
use chromium_adblock.Handler.Types.{Handler}
use chromium_adblock.Context.{ResourceRequest, Ctx}
use chromium_adblock.Loader.Types.{Net}
use chromium_adblock.Socket.Types.{Headers, ProxyingWebSocket}
use chromium_adblock.Socket.Steps.{
  set_each, with_socket_ctx, create_socket_info, before_socket_request, start,
}
use chromium_adblock.Socket.Events.{
  new_socket, SocketEvent, runs_factory, starts_handshake, requires_auth, establishes_connection,
  fails, sends_headers, receives_headers, proxy_sends_headers, proxy_receives_headers, disconnects,
  completes_event, replies_to_event, overrides_headers, handle_started, run_factory, socket_handle,
  socket_deliver, run_socket,
}
use chromium_adblock.Socket.Once.{opened, may_open_all, used, Adds, Adds-same}
use chromium_adblock.Socket.Steady.{before_socket_request-Adds}
use chromium_adblock.Socket.Openings.{handle_started-Adds}

-- What holds of a socket at any time: it has opened, or may open, one socket at most, and before
-- its factory is run it has opened none and awaits nothing.
record Once (s : ProxyingWebSocket) : Type 0 where
  bounded : used s ≤ 1
  idle :
      ((s.forwarding_handshake_client_bound || s.removed) ≡ true)
      ⊎ ((opened s.effects ≡ 0) × (s.awaiting ≡ []))

Once-of_Adds : (s s' : ProxyingWebSocket) → used s ≤ 1 → Adds 0 s s' → Once s'
Once-of_Adds s s' bounded (more, live) = record { bounded = omega arith; idle = inl live }

module _ (net : Net) where
  with_socket_ctx-Adds :
      (ctx : Option Ctx) (s : ProxyingWebSocket)
      → s.forwarding_handshake_client_bound ≡ true
      → Adds 1 s (with_socket_ctx s (before_socket_request net s) ctx)
  with_socket_ctx-Adds none s started = Adds-same net 1 s s refl started
  with_socket_ctx-Adds (some ctx) s started = before_socket_request-Adds net s ctx started

  start-Once :
      (trusted : Bool) (headers : Headers) (s : ProxyingWebSocket)
      → opened s.effects ≡ 0
      → s.awaiting ≡ []
      → Once (start net trusted headers s)
  unfolding start create_socket_info
  start-Once trusted headers s unopened nothing =
      let begun = create_socket_info net (record s {
        forwarding_handshake_client_bound = true;
        extra_headers = trusted;
        request =
            if trusted
            then s.request
            else record s.request { headers = set_each net headers s.request.headers };
      }) in
      let (more, live) = with_socket_ctx-Adds begun.ctx begun refl in
      record {
        bounded = omega (arith, more, unopened, ap (may_open_all trusted) nothing);
        idle = inl live;
      }

  run_factory-Once :
      (event : SocketEvent) (s : ProxyingWebSocket)
      → Once s
      → opened s.effects ≡ 0
      → s.awaiting ≡ []
      → Once (run_factory net event s)
  run_factory-Once (runs_factory trusted headers) s once unopened nothing =
      start-Once trusted headers s unopened nothing
  run_factory-Once starts_handshake s once unopened nothing = once
  run_factory-Once requires_auth s once unopened nothing = once
  run_factory-Once establishes_connection s once unopened nothing = once
  run_factory-Once fails s once unopened nothing = once
  run_factory-Once (sends_headers headers) s once unopened nothing = once
  run_factory-Once (receives_headers headers) s once unopened nothing = once
  run_factory-Once (proxy_sends_headers error headers) s once unopened nothing = once
  run_factory-Once (proxy_receives_headers error headers) s once unopened nothing = once
  run_factory-Once (disconnects reason description) s once unopened nothing = once
  run_factory-Once (completes_event place error) s once unopened nothing = once
  run_factory-Once (replies_to_event reply) s once unopened nothing = once
  run_factory-Once (overrides_headers headers) s once unopened nothing = once

  -- `idle` of a socket that is not started and not removed.
  before_start :
      (s : ProxyingWebSocket)
      → Once s
      → s.forwarding_handshake_client_bound ≡ false
      → s.removed ≡ false
      → (opened s.effects ≡ 0) × (s.awaiting ≡ [])
  before_start s once unstarted alive = by_idle once.idle
    where
      by_idle :
          ((s.forwarding_handshake_client_bound || s.removed) ≡ true)
            ⊎ ((opened s.effects ≡ 0) × (s.awaiting ≡ []))
          → (opened s.effects ≡ 0) × (s.awaiting ≡ [])
      by_idle (inr idle) = idle
      by_idle (inl live) = ground arith

  socket_handle-Once :
      (event : SocketEvent) (s : ProxyingWebSocket)
      → s.removed ≡ false
      → Once s
      → Once (socket_handle net event s)
  unfolding socket_handle
  socket_handle-Once event s alive once = by_started s.forwarding_handshake_client_bound refl
    where
      by_started :
          (started : Bool)
          → started ≡ s.forwarding_handshake_client_bound
          → Once (if started then handle_started net event s else run_factory net event s)
      by_started true e =
          Once-of_Adds s (handle_started net event s) once.bounded
            (handle_started-Adds net event s (sym e))
      by_started false e =
          let (unopened, nothing) = before_start s once (sym e) alive in
          run_factory-Once event s once unopened nothing

  socket_deliver-Once :
      (event : SocketEvent) (s : ProxyingWebSocket) → Once s → Once (socket_deliver net event s)
  unfolding socket_deliver
  socket_deliver-Once event s once = by_removed s.removed refl
    where
      by_removed :
          (removed : Bool)
          → removed ≡ s.removed
          → Once (if removed then s else socket_handle net event s)
      by_removed true e = once
      by_removed false e = socket_handle-Once event s (sym e) once

  run_socket-Once :
      (events : List SocketEvent) (s : ProxyingWebSocket) → Once s → Once (run_socket net events s)
  unfolding run_socket
  run_socket-Once [] s once = once
  run_socket-Once (event ∷ events) s once =
      run_socket-Once events _ (socket_deliver-Once event s once)

  -- Over any sequence of messages, errors and replies, whether there is a proxy for the headers or
  -- not and in whatever order the handler runs its completion callbacks, a web socket that has been
  -- made opens at most one socket on the network.
  pub run_socket_opens_once :
      (events : List SocketEvent) (h : Handler) (request_id : ℕ) (request : ResourceRequest)
      → opened (run_socket net events (new_socket net h request_id request)).effects ≤ 1
  unfolding new_socket
  run_socket_opens_once events h request_id request =
      let once =
        run_socket-Once events (new_socket net h request_id request)
          (record { bounded = omega arith; idle = inr (refl, refl) }) in
      omega (arith, once.bounded)
