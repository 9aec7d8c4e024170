-- ===== src/Socket/Steady.antt =====
-- No message opens more sockets than it may
-- (chrome/browser/net/brave_proxying_web_socket.cc).
use chromium_adblock.Base.{
  ℕ, ◌≤◌, String, Bool, true, false, ◌=s=◌, ◌≡◌, refl, ◌∙◌, Option, some, [], ◌∷◌, arith,
  if◌then◌else◌,
}
use chromium_adblock.Handler.Types.{NetError, ok, io_pending, blocked_by_client, failed}
use chromium_adblock.Handler.Events.{on_before_url_request, on_headers_received}
use chromium_adblock.Context.{Ctx, make_ctx, empty_gurl}
use chromium_adblock.Stub.{ResponseHeaders}
use chromium_adblock.Loader.Types.{Net}
use chromium_adblock.Socket.Types.{
  err_failed, empty_data_uri, to_headers_received_complete, SocketEffect, client_reset_with_reason,
  asked_headers_received, answered_headers_received, ProxyingWebSocket, tell_socket,
}
use chromium_adblock.Socket.Steps.{
  leave_socket, on_error, unless_emptied, after_socket_event, create_socket_info, begin_with,
  run_begin, before_socket_request,
}
use chromium_adblock.Socket.Handshake.{
  socket_headers_received, pause_unless_blocked, on_headers_received_complete_from_proxy,
  on_headers_received_complete, on_socket_headers_received, on_mojo_connection_error,
}
use chromium_adblock.Socket.Once.{
  opens, tell_socket-used, opened-append, may_open, used, Adds, chance, on_error-Adds, Adds-same,
  choose-Adds, continue_to_start_socket-Adds, after_socket_event-Adds,
  on_before_request_complete-Adds,
}

module _ (net : Net) where
  answer_headers_received-used :
      (pending : Bool) (headers : Option String) (s : ProxyingWebSocket)
      → let answered =
          if pending
          then tell_socket
              (answered_headers_received ok headers)
              (record s { has_headers_received_callback = false })
          else s in
        (used answered ≡ used s)
        × (answered.forwarding_handshake_client_bound ≡ s.forwarding_handshake_client_bound)
  answer_headers_received-used true headers s =
      (omega (arith, opened-append s.effects (answered_headers_received ok headers ∷ [])), refl)
  answer_headers_received-used false headers s = (refl, refl)

  pub on_headers_received_complete_from_proxy-Adds :
      (error : NetError) (headers : Option String) (s : ProxyingWebSocket)
      → s.forwarding_handshake_client_bound ≡ true
      → Adds 0 s (on_headers_received_complete_from_proxy net error headers s)
  unfolding on_headers_received_complete_from_proxy
  on_headers_received_complete_from_proxy-Adds error headers s started =
      let (same, kept) = answer_headers_received-used s.has_headers_received_callback headers s in
      Adds-same net 0 s (on_headers_received_complete_from_proxy net error headers s) same
        (kept ∙ started)

  pub tell-Adds :
      (e : SocketEffect) (s : ProxyingWebSocket)
      → s.forwarding_handshake_client_bound ≡ true
      → opens e ≡ 0
      → Adds 0 s (tell_socket e s)
  tell-Adds e s started silent =
      Adds-same net 0 s (tell_socket e s) (omega (arith, tell_socket-used e s, silent)) started

  pub on_headers_received_complete-Adds :
      (error : NetError) (s : ProxyingWebSocket)
      → s.forwarding_handshake_client_bound ≡ true
      → Adds 0 s (on_headers_received_complete net error s)
  unfolding on_headers_received_complete
  on_headers_received_complete-Adds ok s started =
      choose-Adds net s.extra_headers 0 s _ _ (tell-Adds (asked_headers_received _) s started refl)
        (on_headers_received_complete_from_proxy-Adds ok _ s started)
  on_headers_received_complete-Adds io_pending s started = on_error-Adds 0 _ s
  on_headers_received_complete-Adds blocked_by_client s started = on_error-Adds 0 _ s
  on_headers_received_complete-Adds (failed code) s started = on_error-Adds 0 _ s

  pause_unless_blocked-keeps :
      (rv : NetError) (s : ProxyingWebSocket)
      → (used (pause_unless_blocked rv s) ≡ used s)
        × ((pause_unless_blocked rv s).forwarding_handshake_client_bound
            ≡ s.forwarding_handshake_client_bound)
        × ((pause_unless_blocked rv s).extra_headers ≡ s.extra_headers)
  pause_unless_blocked-keeps ok s = (refl, refl, refl)
  pause_unless_blocked-keeps io_pending s = (refl, refl, refl)
  pause_unless_blocked-keeps blocked_by_client s = (refl, refl, refl)
  pause_unless_blocked-keeps (failed code) s = (refl, refl, refl)

  pub after_headers-Adds :
      (rv : NetError) (s : ProxyingWebSocket)
      → s.forwarding_handshake_client_bound ≡ true
      → Adds 0 s (
          after_socket_event to_headers_received_complete
            (on_headers_received_complete net ok)
            rv
            (pause_unless_blocked rv s))
  after_headers-Adds rv s started =
      let (same, kept, extra) = pause_unless_blocked-keeps rv s in
      let paused = pause_unless_blocked rv s in
      let (more, live) =
        after_socket_event-Adds net 0 to_headers_received_complete
          (on_headers_received_complete net ok) rv paused (kept ∙ started) (omega arith)
          (on_headers_received_complete-Adds ok paused (kept ∙ started)) in
      (omega arith, live)

  pub unless_emptied-Adds :
      (k : ℕ) (s left next : ProxyingWebSocket) (error : NetError)
      → used left ≡ used s
      → Adds k s next
      → Adds k s (unless_emptied error left next)
  unless_emptied-Adds k s left next error same p =
      let (more, gone) = on_error-Adds k error left in
      choose-Adds net (left.redirect_url.spec =s= empty_data_uri) k s (on_error error left) next
        (omega arith, gone) p

  pub socket_headers_received-Adds :
      (s : ProxyingWebSocket) (ctx : Ctx)
      → s.forwarding_handshake_client_bound ≡ true
      → Adds 0 s (socket_headers_received net s ctx)
  socket_headers_received-Adds s ctx started =
      let (rv, h, context) = on_headers_received net.parse s.handler ctx.context in
      let left = leave_socket ctx (h, context) s in
      unless_emptied-Adds 0 s left
        (after_socket_event to_headers_received_complete (on_headers_received_complete net ok) rv
          (pause_unless_blocked rv left))
        rv refl (after_headers-Adds rv left started)

  pub on_socket_headers_received-Adds :
      (headers : ResponseHeaders) (s : ProxyingWebSocket)
      → s.forwarding_handshake_client_bound ≡ true
      → Adds 0 s (on_socket_headers_received net headers s)
  unfolding on_socket_headers_received create_socket_info
  on_socket_headers_received-Adds headers s started =
      socket_headers_received-Adds
        (create_socket_info net
          (record s { response_headers = some headers; has_headers_received_callback = true }))
        (make_ctx net.origins s.request s.request_id net.has_browser_context net.committed s.ctx)
        started

  pub on_mojo_connection_error-Adds :
      (reason : ℕ) (description : String) (s : ProxyingWebSocket)
      → Adds 0 s (on_mojo_connection_error net reason description s)
  unfolding on_mojo_connection_error
  on_mojo_connection_error-Adds reason description s =
      let (more, gone) =
        on_error-Adds 0 err_failed (reset_client s.forwarding_handshake_client_bound) in
      (omega (arith, more, reset-used s.forwarding_handshake_client_bound), gone)
    where
      reset_client : Bool → ProxyingWebSocket
      reset_client bound =
          if bound
          then tell_socket (client_reset_with_reason reason description)
              (record s { forwarding_handshake_client_bound = false })
          else s

      reset-used : (bound : Bool) → used (reset_client bound) ≡ used s
      reset-used true =
          omega (arith, opened-append s.effects (client_reset_with_reason reason description ∷ []))
      reset-used false = refl

  chance-le : (extra : Bool) → chance net extra ≤ 1
  chance-le true = omega arith
  chance-le false = omega arith

  begin_with-le : (extra other : Bool) → may_open other (begin_with net extra) ≤ 1
  begin_with-le true other = omega arith
  begin_with-le false true = omega arith
  begin_with-le false false = omega arith

  pub run_begin-Adds :
      (extra : Bool) (s : ProxyingWebSocket)
      → s.forwarding_handshake_client_bound ≡ true
      → extra ≡ s.extra_headers
      → Adds 1 s (run_begin net extra s)
  run_begin-Adds true s started e = continue_to_start_socket-Adds net ok s started
  run_begin-Adds false s started e =
      let (more, live) = on_before_request_complete-Adds net ok s started in
      (omega (arith, more, chance-le s.extra_headers), live)

  pub before_socket_request-Adds :
      (s : ProxyingWebSocket) (ctx : Ctx)
      → s.forwarding_handshake_client_bound ≡ true
      → Adds 1 s (before_socket_request net s ctx)
  before_socket_request-Adds s ctx started =
      let (rv, h, context) =
        on_before_url_request net.parse net.extensions s.handler ctx.context empty_gurl in
      let left = leave_socket ctx (h, context) s in
      unless_emptied-Adds 1 s left
        (after_socket_event (begin_with net s.extra_headers) (run_begin net s.extra_headers) rv
          left)
        rv refl
        (after_socket_event-Adds net 1 (begin_with net s.extra_headers)
          (run_begin net s.extra_headers) rv left started
          (begin_with-le s.extra_headers s.extra_headers)
          (run_begin-Adds s.extra_headers left started refl))
