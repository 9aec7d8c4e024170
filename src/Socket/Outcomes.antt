-- ===== src/Socket/Outcomes.antt =====
-- What the verdict of the request handler does to a web socket
-- (chrome/browser/net/brave_proxying_web_socket.cc, with brave_request_handler.cc).
use chromium_adblock.Base.{
  ◌+◌, Bool, true, false, not, ◌&&◌, ◌||◌, ◌≡◌, refl, ap, ◌∙◌, none, some, [], ◌∷◌, is_empty,
  is_nil, arith, if◌then◌else◌,
}
use chromium_adblock.Delegate.Types.{is_ad_blocked, should_mock_request}
use chromium_adblock.Handler.Types.{NetError, ok, blocked_by_client, Context}
use chromium_adblock.Handler.Events.{
  on_before_start_transaction, verdict_of, is_before_request, is_blocked_by,
}
use chromium_adblock.Handler.Outcomes.{is_client_blocked, is_other_blocked, verdict_of_blocked}
use chromium_adblock.Loader.Types.{err_aborted, Net}
use chromium_adblock.Loader.Start.{destroy_ctx}
use chromium_adblock.Loader.Sent.{destroy_ctx-before_start_transaction}
use chromium_adblock.Socket.Types.{
  created_socket, asked_before_send_headers, answered_before_send_headers,
  answered_headers_received, ProxyingWebSocket, tell_socket,
}
use chromium_adblock.Socket.Steps.{
  abort_before_send_headers, abort_headers_received, destroy, on_error, answer_before_send_headers,
  create_socket_info, continue_to_start_socket, on_before_send_headers_complete,
  on_before_send_headers_complete_from_proxy, on_before_request_complete,
}
use chromium_adblock.Socket.Once.{opened, opened-append}

abort_before_send_headers-opened :
    (pending : Bool) (s : ProxyingWebSocket)
    → opened (abort_before_send_headers pending s).effects ≡ opened s.effects
abort_before_send_headers-opened true s =
    omega (arith, opened-append s.effects (answered_before_send_headers err_aborted none ∷ []))
abort_before_send_headers-opened false s = refl

abort_headers_received-opened :
    (pending : Bool) (s : ProxyingWebSocket)
    → opened (abort_headers_received pending s).effects ≡ opened s.effects
abort_headers_received-opened true s =
    omega (arith, opened-append s.effects (answered_headers_received err_aborted none ∷ []))
abort_headers_received-opened false s = refl

on_error-opened :
    (error : NetError) (s : ProxyingWebSocket)
    → opened (on_error error s).effects ≡ opened s.effects
unfolding on_error destroy
on_error-opened error s =
    abort_headers_received-opened s.has_headers_received_callback _
    ∙ abort_before_send_headers-opened s.has_before_send_headers_callback
        (record s { is_done = true; handler = destroy_ctx s.ctx s.handler; removed = true })

module _ (net : Net) where
  answer_before_send_headers-opened :
      (pending : Bool) (s : ProxyingWebSocket)
      → opened
          (if pending
            then tell_socket
                (answered_before_send_headers ok (some s.request.headers))
                (record s { has_before_send_headers_callback = false })
            else s).effects
        ≡ opened s.effects
  answer_before_send_headers-opened true s = omega (
    arith,
    opened-append s.effects (answered_before_send_headers ok (some s.request.headers) ∷ []),
  )
  answer_before_send_headers-opened false s = refl

  on_before_send_headers_complete-opened :
      (s : ProxyingWebSocket)
      → s.extra_headers ≡ false
      → opened (on_before_send_headers_complete net ok s).effects ≡ opened s.effects + 1
  unfolding on_before_send_headers_complete continue_to_start_socket
  on_before_send_headers_complete-opened s direct =
      let answered = answer_before_send_headers s in
      ap
        (λ extra.
          opened (if extra then answered else continue_to_start_socket net ok answered).effects)
        direct
      ∙ omega (
        arith,
        opened-append answered.effects (created_socket answered.request.url _ ∷ []),
        answer_before_send_headers-opened s.has_before_send_headers_callback s,
      )

  on_before_send_headers_complete_from_proxy-opened :
      (s : ProxyingWebSocket)
      → s.extra_headers ≡ false
      → is_nil s.handler.before_start_transaction_callbacks ≡ true
      → opened
          (on_before_send_headers_complete_from_proxy net ok (some s.request.headers) s).effects
        ≡ opened s.effects + 1
  unfolding on_before_send_headers_complete_from_proxy create_socket_info
      on_before_start_transaction
  on_before_send_headers_complete_from_proxy-opened s direct no_callback =
      rw (destroy_ctx-before_start_transaction net.weak_ctx s.ctx s.handler no_callback)
        (on_before_send_headers_complete-opened _ direct)

  on_before_request_complete-opened :
      (s : ProxyingWebSocket)
      → s.extra_headers ≡ false
      → is_nil s.handler.before_start_transaction_callbacks ≡ true
      → opened (on_before_request_complete net ok s).effects ≡ opened s.effects + 1
  unfolding on_before_request_complete
  on_before_request_complete-opened s direct no_callback =
      ap
        (λ extra.
          opened
            (if extra
              then tell_socket (asked_before_send_headers s.request.headers) s
              else on_before_send_headers_complete_from_proxy net ok (some s.request.headers)
                  s).effects)
        direct
      ∙ on_before_send_headers_complete_from_proxy-opened s direct no_callback

  by_verdict :
      (rv : NetError) (s : ProxyingWebSocket)
      → s.extra_headers ≡ false
      → is_nil s.handler.before_start_transaction_callbacks ≡ true
      → (blocked : Bool) → rv ≡ (if blocked then blocked_by_client else ok)
      → opened (on_before_request_complete net rv s).effects
        ≡ opened s.effects + (if is_client_blocked rv then 0 else 1)
  unfolding on_before_request_complete
  by_verdict rv s direct no_callback true e =
      rw e (omega (arith, on_error-opened blocked_by_client s))
  by_verdict rv s direct no_callback false e =
      rw e (on_before_request_complete-opened s direct no_callback)

  -- When the callbacks of OnBeforeURLRequest are done with a web socket without a proxy for its
  -- headers, and none waits for OnBeforeStartTransaction, it opens its socket at once, exactly once,
  -- unless the request is blocked for another reason than the engines, or by the engines without a
  -- stand-in. So a web socket that the engines block with a stand-in is opened all the same.
  pub on_before_request_complete_opens :
      (ctx : Context) (s : ProxyingWebSocket)
      → s.extra_headers ≡ false
      → is_nil s.handler.before_start_transaction_callbacks ≡ true
      → opened (on_before_request_complete net (verdict_of net.parse ctx) s).effects
        ≡ opened s.effects
          + (if is_before_request ctx.event_type
                && (is_other_blocked ctx.info.blocked_by
                    || (is_ad_blocked ctx.info.blocked_by && is_empty ctx.info.mock_data_url))
              then 0
              else 1)
  unfolding verdict_of
  on_before_request_complete_opens ctx s direct no_callback =
      by_verdict (verdict_of net.parse ctx) s direct no_callback
        (is_before_request ctx.event_type
          && (is_blocked_by ctx.info.blocked_by && not (should_mock_request ctx.info)))
        refl
      ∙ ap (λ blocked. opened s.effects + (if blocked then 0 else 1))
          (verdict_of_blocked net.parse ctx)
