-- ===== src/Loader/Response.antt =====
-- What the network says to an InProgressRequest
-- (chrome/browser/net/brave_proxying_url_loader_factory.cc).
use chromium_adblock.Base.{
  ℕ, String, Bool, true, false, ◌==◌, ◌&&◌, ◌=s=◌, Option, none, some, if◌then◌else◌,
}
use chromium_adblock.Web.{scheme_is_http_or_https}
use chromium_adblock.Handler.Types.{NetError, ok}
use chromium_adblock.Handler.Events.{on_headers_received}
use chromium_adblock.Context.{Ctx, ResourceRequest}
use chromium_adblock.Stub.{ResponseHead, ResponseHeaders, Content, content_size}
use chromium_adblock.Loader.Types.{
  err_aborted, RedirectInfo, CompletionStatus, unbound, resume_receiver, received_response,
  completed, loader_reset_with_reason, InProgressRequest, emit, Net,
}
use chromium_adblock.Loader.Start.{
  create_redirect_info, status_of, remove_request, on_request_error, create_brave_request_info,
  with_ctx, leave_ctx, set_internal_redirect,
}
use chromium_adblock.Loader.Redirect.{continue_to_before_redirect}
use chromium_adblock.Loader.Before.{after_event}

-- `redirect_url_ = GURL()`.
abbrev clear_redirect_url : Option Ctx → Option Ctx
clear_redirect_url none = none
clear_redirect_url (some ctx) =
    some (record ctx { context = record ctx.context { new_url = none } })

abbrev pub status_for : Content → CompletionStatus
status_for body = record {
  error_code = ok;
  should_collapse_initiator = false;
  encoded_data_length = content_size body;
  encoded_body_length = content_size body;
  decoded_body_length = content_size body;
}

module _ (net : Net) where
  abbrev headers_received :
      (InProgressRequest → InProgressRequest) → InProgressRequest → Ctx → InProgressRequest
  headers_received go_on ip ctx =
      let (rv, h, context) = on_headers_received net.parse ip.handler ctx.context in
      after_event net go_on rv (leave_ctx ctx (h, context) ip)

  -- HandleResponseOrRedirectHeaders, with its continuation.
  unfoldable pub handle_response_or_redirect_headers :
      (InProgressRequest → InProgressRequest) → InProgressRequest → InProgressRequest
  handle_response_or_redirect_headers go_on ip =
      let cleared = record ip { override_headers = none; ctx = clear_redirect_url ip.ctx } in
      if scheme_is_http_or_https ip.request.url
      then (let fresh = create_brave_request_info net cleared in
          with_ctx fresh.ctx fresh (headers_received go_on fresh))
      else go_on cleared

  -- The head with the headers that a callback has put in their place, parsed anew.
  abbrev overridden :
      ResourceRequest → Option ResponseHeaders → Option ResponseHead → Option ResponseHead
  overridden request none head = head
  overridden request (some headers) none = none
  overridden request (some headers) (some head) = some (record head {
    headers = some headers;
    parsed_headers = some (net.populate_parsed_headers headers request.url);
  })

  abbrev pub override_location : Option ResponseHeaders → Option (ResponseHeaders × String)
  override_location none = none
  override_location (some headers) = elim (net.is_redirect headers) [
    | none ↦ none
    | some location ↦ some (headers, location)
  ]

  abbrev pub start_response :
      Option (ResponseHeaders × String) → InProgressRequest → InProgressRequest
  start_response none ip =
      record (emit
        (received_response ip.current_response_head ip.current_response_body ip.cached_metadata)
        (record ip { proxied_client = resume_receiver ip.proxied_client })) {
          current_response_head = none;
          current_response_body = none;
          cached_metadata = none;
        }
  start_response (some (headers, location)) ip =
      continue_to_before_redirect net
        (create_redirect_info net ip.request (net.parse location) (net.response_code headers)
          (net.get_referrer_policy_header headers))
        ok
        (record ip {
          proxied_client = unbound;
          target_loader_bound = false;
          ctx = set_internal_redirect true ip.ctx;
        })

  -- A response whose new headers are a redirect becomes one.
  unfoldable pub continue_to_response_started : NetError → InProgressRequest → InProgressRequest
  continue_to_response_started ok ip =
      start_response (override_location ip.override_headers) (record ip {
        current_response_head = overridden ip.request ip.override_headers ip.current_response_head;
      })
  continue_to_response_started error ip = on_request_error net (status_of error) ip

  unfoldable pub on_receive_response :
      Option ResponseHead → Option ℕ → Option ℕ → InProgressRequest → InProgressRequest
  on_receive_response head body cached_metadata ip =
      handle_response_or_redirect_headers (continue_to_response_started ok) (record ip {
        current_response_head = head;
        current_response_body = body;
        cached_metadata = cached_metadata;
        ctx = set_internal_redirect false ip.ctx;
      })

  unfoldable pub on_receive_redirect :
      RedirectInfo → Option ResponseHead → InProgressRequest → InProgressRequest
  on_receive_redirect info head ip =
      handle_response_or_redirect_headers (continue_to_before_redirect net info ok)
        (record ip { current_response_head = head; ctx = set_internal_redirect false ip.ctx })

  abbrev pub complete_with : NetError → CompletionStatus → InProgressRequest → InProgressRequest
  complete_with ok status ip = remove_request (emit (completed status) ip)
  complete_with error status ip = on_request_error net status ip

  unfoldable pub on_complete : CompletionStatus → InProgressRequest → InProgressRequest
  on_complete status ip = complete_with status.error_code status ip

  -- OnWrite; a body that could not be written is not completed.
  unfoldable pub on_write : Bool → Content → InProgressRequest → InProgressRequest
  on_write written body ip = if written then on_complete (status_for body) ip else ip

  abbrev pub reset_with_reason : ℕ → String → InProgressRequest → InProgressRequest
  reset_with_reason reason description ip =
      if ip.target_loader_bound
      then emit (loader_reset_with_reason reason description)
          (record ip { target_loader_bound = false })
      else ip

  unfoldable pub on_loader_disconnected : ℕ → String → InProgressRequest → InProgressRequest
  on_loader_disconnected reason description ip =
      if reason == net.client_disconnect_reason && description =s= net.follow_redirect_reason
      then remove_request (reset_with_reason reason description ip)
      else on_request_error net (status_of err_aborted) ip

  -- The client's end is closed.
  unfoldable pub on_client_disconnected : InProgressRequest → InProgressRequest
  on_client_disconnected ip = on_request_error net (status_of err_aborted) ip
