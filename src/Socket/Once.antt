-- ===== src/Socket/Once.antt =====
-- A BraveProxyingWebSocket opens at most one socket
-- (chrome/browser/net/brave_proxying_web_socket.cc).
use chromium_adblock.Base.{
  ℕ, ◌+◌, ◌≤◌, Bool, true, false, ◌||◌, ◌≡◌, refl, ap, ◌∙◌, Option, none, some, List, [], ◌∷◌, ◌++◌,
  arith, if◌then◌else◌,
}
use chromium_adblock.Handler.Types.{NetError, ok, io_pending, blocked_by_client, failed}
use chromium_adblock.Loader.Types.{err_aborted, Net}
use chromium_adblock.Loader.Start.{destroy_ctx}
use chromium_adblock.Socket.Types.{
  Headers, SocketContinuation, to_start_request, to_before_request_complete,
  to_before_send_headers_complete, to_headers_received_complete, SocketEffect,
  opening_handshake_started, connection_established, client_reset_with_reason, auth_required,
  created_socket, asked_before_send_headers, asked_headers_received, answered_before_send_headers,
  answered_headers_received, ProxyingWebSocket, tell_socket,
}
use chromium_adblock.Socket.Steps.{
  abort_before_send_headers, abort_headers_received, destroy, on_error, continue_to_start_socket,
  on_before_send_headers_complete, answer_before_send_headers, after_socket_event,
  create_socket_info, on_before_send_headers_complete_from_proxy, on_before_request_complete,
}

abbrev pub opens : SocketEffect → ℕ
opens (created_socket url headers) = 1
opens opening_handshake_started = 0
opens connection_established = 0
opens auth_required = 0
opens (client_reset_with_reason reason description) = 0
opens (asked_before_send_headers headers) = 0
opens (asked_headers_received headers) = 0
opens (answered_before_send_headers error headers) = 0
opens (answered_headers_received error headers) = 0

-- The sockets that have been opened.
abbrev pub opened : List SocketEffect → ℕ
opened [] = 0
opened (e ∷ es) = opens e + opened es

pub opened-append : (es fs : List SocketEffect) → opened (es ++ fs) ≡ opened es + opened fs
opened-append [] fs = omega arith
opened-append (e ∷ es) fs = omega (arith, opened-append es fs)

-- Whether a continuation may open a socket.
abbrev pub may_open : Bool → SocketContinuation → ℕ
may_open extra to_start_request = 1
may_open extra to_before_request_complete = if extra then 0 else 1
may_open extra to_before_send_headers_complete = if extra then 0 else 1
may_open extra to_headers_received_complete = 0

abbrev pub may_open_all : Bool → List SocketContinuation → ℕ
may_open_all extra [] = 0
may_open_all extra (c ∷ cs) = may_open extra c + may_open_all extra cs

abbrev pub used : ProxyingWebSocket → ℕ
used s = opened s.effects + may_open_all s.extra_headers s.awaiting

-- A step of a started socket that opens at most `k` more.
abbrev pub Adds : ℕ → ProxyingWebSocket → ProxyingWebSocket → Type 0
Adds k s s' = (used s' ≤ used s + k) × ((s'.forwarding_handshake_client_bound || s'.removed) ≡ true)

or_true : (b : Bool) → (b || true) ≡ true
or_true true = refl
or_true false = refl

pub tell_socket-used :
    (e : SocketEffect) (s : ProxyingWebSocket) → used (tell_socket e s) ≡ used s + opens e
tell_socket-used e s = omega (arith, opened-append s.effects (e ∷ []))

abort_before_send_headers-used :
    (pending : Bool) (s : ProxyingWebSocket)
    → (used (abort_before_send_headers pending s) ≡ used s)
      × ((abort_before_send_headers pending s).removed ≡ s.removed)
abort_before_send_headers-used true s = (
  omega (arith, opened-append s.effects (answered_before_send_headers err_aborted none ∷ [])),
  refl,
)
abort_before_send_headers-used false s = (refl, refl)

abort_headers_received-used :
    (pending : Bool) (s : ProxyingWebSocket)
    → (used (abort_headers_received pending s) ≡ used s)
      × ((abort_headers_received pending s).removed ≡ s.removed)
abort_headers_received-used true s =
    (omega (arith, opened-append s.effects (answered_headers_received err_aborted none ∷ [])), refl)
abort_headers_received-used false s = (refl, refl)

Adds-of_removed :
    (k : ℕ) (s s' : ProxyingWebSocket) → used s' ≡ used s → s'.removed ≡ true → Adds k s s'
Adds-of_removed k s s' same gone = (
  omega arith,
  ap (λ removed. s'.forwarding_handshake_client_bound || removed) gone
      ∙ or_true s'.forwarding_handshake_client_bound,
)

pub on_error-Adds : (k : ℕ) (error : NetError) (s : ProxyingWebSocket) → Adds k s (on_error error s)
unfolding on_error destroy
on_error-Adds k error s =
    let gone = record s { is_done = true; handler = destroy_ctx s.ctx s.handler; removed = true } in
    let aborted = abort_before_send_headers s.has_before_send_headers_callback gone in
    let (same, kept) = abort_before_send_headers-used s.has_before_send_headers_callback gone in
    let (same', kept') = abort_headers_received-used s.has_headers_received_callback aborted in
    Adds-of_removed k s (abort_headers_received s.has_headers_received_callback aborted)
      (same' ∙ same) (kept' ∙ kept)

module _ (net : Net) where
  pub continue_to_start_socket-Adds :
      (error : NetError) (s : ProxyingWebSocket)
      → s.forwarding_handshake_client_bound ≡ true
      → Adds 1 s (continue_to_start_socket net error s)
  unfolding continue_to_start_socket
  continue_to_start_socket-Adds ok s started =
      (omega (arith, opened-append s.effects (created_socket s.request.url _ ∷ [])), rw started)
  continue_to_start_socket-Adds io_pending s started = on_error-Adds 1 _ s
  continue_to_start_socket-Adds blocked_by_client s started = on_error-Adds 1 _ s
  continue_to_start_socket-Adds (failed code) s started = on_error-Adds 1 _ s

  answer_before_send_headers-used :
      (pending : Bool) (s : ProxyingWebSocket)
      → let answered =
          if pending
          then tell_socket
              (answered_before_send_headers ok (some s.request.headers))
              (record s { has_before_send_headers_callback = false })
          else s in
        (used answered ≡ used s)
        × (answered.forwarding_handshake_client_bound ≡ s.forwarding_handshake_client_bound)
  answer_before_send_headers-used true s = (
    omega (
      arith,
      opened-append s.effects (answered_before_send_headers ok (some s.request.headers) ∷ []),
    ),
    refl,
  )
  answer_before_send_headers-used false s = (refl, refl)

  pub Adds-same :
      (k : ℕ) (s s' : ProxyingWebSocket)
      → used s' ≡ used s
      → s'.forwarding_handshake_client_bound ≡ true
      → Adds k s s'
  Adds-same k s s' same started = (omega arith, ap (λ bound. bound || s'.removed) started)

  -- The sockets that a step may open where there is no proxy for the headers.
  abbrev pub chance : Bool → ℕ
  chance extra = if extra then 0 else 1

  pub on_before_send_headers_complete-Adds :
      (error : NetError) (s : ProxyingWebSocket)
      → s.forwarding_handshake_client_bound ≡ true
      → Adds (chance s.extra_headers) s (on_before_send_headers_complete net error s)
  unfolding on_before_send_headers_complete
  on_before_send_headers_complete-Adds ok s started =
      by_extra s.extra_headers
        (answer_before_send_headers-used s.has_before_send_headers_callback s).0
        ((answer_before_send_headers-used s.has_before_send_headers_callback s).1 ∙ started)
    where
      by_extra :
          (extra : Bool)
          → used (answer_before_send_headers s) ≡ used s
          → (answer_before_send_headers s).forwarding_handshake_client_bound ≡ true
          → Adds (chance extra) s (
              if extra
              then answer_before_send_headers s
              else continue_to_start_socket net ok (answer_before_send_headers s))
      by_extra true same on = Adds-same 0 s (answer_before_send_headers s) same on
      by_extra false same on =
          let (more, live) = continue_to_start_socket-Adds ok (answer_before_send_headers s) on in
          (omega arith, live)
  on_before_send_headers_complete-Adds io_pending s started = on_error-Adds _ _ s
  on_before_send_headers_complete-Adds blocked_by_client s started = on_error-Adds _ _ s
  on_before_send_headers_complete-Adds (failed code) s started = on_error-Adds _ _ s

  pub after_socket_event-Adds :
      (k : ℕ) (continuation : SocketContinuation) (go_on : ProxyingWebSocket → ProxyingWebSocket)
      → (rv : NetError) (s : ProxyingWebSocket) → s.forwarding_handshake_client_bound ≡ true
      → may_open s.extra_headers continuation ≤ k
      → Adds k s (go_on s)
      → Adds k s (after_socket_event continuation go_on rv s)
  after_socket_event-Adds k continuation go_on ok s started fits next = next
  after_socket_event-Adds k continuation go_on io_pending s started fits next =
      (omega arith, ap (λ bound. bound || s.removed) started)
  after_socket_event-Adds k continuation go_on blocked_by_client s started fits next =
      on_error-Adds k _ s
  after_socket_event-Adds k continuation go_on (failed code) s started fits next = next

  pub on_before_send_headers_complete_from_proxy-Adds :
      (error : NetError) (headers : Option Headers) (s : ProxyingWebSocket)
      → s.forwarding_handshake_client_bound ≡ true
      → Adds
          (chance s.extra_headers)
          s
          (on_before_send_headers_complete_from_proxy net error headers s)
  unfolding on_before_send_headers_complete_from_proxy create_socket_info
  on_before_send_headers_complete_from_proxy-Adds ok headers s started =
      after_socket_event-Adds (chance s.extra_headers) to_before_send_headers_complete
        (on_before_send_headers_complete net ok) _ _ started (omega arith)
        (on_before_send_headers_complete-Adds ok _ started)
  on_before_send_headers_complete_from_proxy-Adds io_pending headers s started = on_error-Adds _ _ s
  on_before_send_headers_complete_from_proxy-Adds blocked_by_client headers s started =
      on_error-Adds _ _ s
  on_before_send_headers_complete_from_proxy-Adds (failed code) headers s started =
      on_error-Adds _ _ s

  pub choose-Adds :
      (test : Bool) (k : ℕ) (s a b : ProxyingWebSocket)
      → Adds k s a
      → Adds k s b
      → Adds k s (if test then a else b)
  choose-Adds true k s a b p q = p
  choose-Adds false k s a b p q = q

  pub on_before_request_complete-Adds :
      (error : NetError) (s : ProxyingWebSocket)
      → s.forwarding_handshake_client_bound ≡ true
      → Adds (chance s.extra_headers) s (on_before_request_complete net error s)
  unfolding on_before_request_complete
  on_before_request_complete-Adds ok s started =
      choose-Adds s.extra_headers (chance s.extra_headers) s _ _
        (
          omega (arith, opened-append s.effects (asked_before_send_headers s.request.headers ∷ [])),
          ap (λ bound. bound || s.removed) started,
        )
        (on_before_send_headers_complete_from_proxy-Adds ok (some s.request.headers) s started)
  on_before_request_complete-Adds io_pending s started = on_error-Adds _ _ s
  on_before_request_complete-Adds blocked_by_client s started = on_error-Adds _ _ s
  on_before_request_complete-Adds (failed code) s started = on_error-Adds _ _ s
