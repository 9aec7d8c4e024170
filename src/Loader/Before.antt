-- ===== src/Loader/Before.antt =====
-- An InProgressRequest before it is sent: the event OnBeforeURLRequest and what the handler's
-- answer leads to (chrome/browser/net/brave_proxying_url_loader_factory.cc).
use chromium_adblock.Base.{
  ℕ, String, false, not, Option, none, some, is_empty, List, [], ◌∷◌, ◌++◌, if◌then◌else◌,
}
use chromium_adblock.Web.{Gurl, scheme_is_http_or_https}
use chromium_adblock.Delegate.Types.{should_mock_request}
use chromium_adblock.Handler.Types.{NetError, ok, io_pending, blocked_by_client, failed}
use chromium_adblock.Handler.Events.{on_before_url_request, on_before_start_transaction}
use chromium_adblock.Context.{Ctx, ResourceRequest, empty_gurl}
use chromium_adblock.Stub.{ResponseHead, Content, make_stub_response}
use chromium_adblock.Loader.Types.{
  err_insufficient_resources, HeadersUpdate, pause_receiver, resume_receiver, received_response,
  wrote_body, InProgressRequest, emit, Net,
}
use chromium_adblock.Loader.Start.{
  status_of, on_request_error, create_brave_request_info, continue_to_send_headers, with_ctx,
  leave_ctx, redirect_url_of, with_referrer, ctx_blocked_by, is_not_blocked,
}
use chromium_adblock.Loader.Redirect.{handle_before_request_redirect}

module _ (net : Net) where
  -- What is done with the result of a handler's entry point: blocked, paused, or `go_on`.
  abbrev pub after_event :
      (InProgressRequest → InProgressRequest) → NetError → InProgressRequest → InProgressRequest
  after_event go_on blocked_by_client ip = on_request_error net (status_of blocked_by_client) ip
  after_event go_on io_pending ip = record ip { proxied_client = pause_receiver ip.proxied_client }
  after_event go_on ok ip = go_on ip
  after_event go_on (failed code) ip = go_on ip

  abbrev before_start_transaction : InProgressRequest → Ctx → InProgressRequest
  before_start_transaction ip ctx =
      let (rv, h, context) =
        on_before_start_transaction net.parse net.extensions ip.handler ctx.context in
      after_event (continue_to_send_headers net ok) rv (leave_ctx ctx (h, context) ip)

  -- The event OnBeforeStartTransaction, for HTTP and HTTPS.
  unfoldable pub start_transaction : InProgressRequest → InProgressRequest
  start_transaction ip =
      if scheme_is_http_or_https ip.request.url
      then (let fresh = create_brave_request_info net ip in
          with_ctx fresh.ctx fresh (before_start_transaction fresh))
      else continue_to_send_headers net ok ip

  abbrev pub accept_of : Option String → String
  accept_of none = ""
  accept_of (some accept) = accept

  abbrev pub stub_for : ResourceRequest → Ctx → ResponseHead × Content
  stub_for request ctx =
      make_stub_response net.parse_data_url net.assemble_raw_headers ctx.context.info.mock_data_url
        (net.split_accept (accept_of (net.get_header request.headers "Accept")))

  abbrev pub respond : InProgressRequest → Ctx → Option ℕ → InProgressRequest
  respond ip ctx none = on_request_error net (status_of err_insufficient_resources) ip
  respond ip ctx (some consumer) =
      let (head, body) = stub_for ip.request ctx in
      emit (wrote_body body)
        (record (emit (received_response (some head) (some consumer) ip.cached_metadata) ip) {
          cached_metadata = none;
          writing = ip.writing ++ body ∷ [];
        })

  -- What a blocked request gets: an error, or a stand-in through a pipe.
  unfoldable pub answer_blocked : InProgressRequest → Ctx → InProgressRequest
  answer_blocked ip ctx =
      if not (should_mock_request ctx.context.info)
      then on_request_error net (status_of blocked_by_client) ip
      else respond ip ctx net.pipe

  abbrev answer_or_start : InProgressRequest → InProgressRequest
  answer_or_start ip =
      if is_not_blocked (ctx_blocked_by ip.ctx)
      then start_transaction ip
      else with_ctx ip.ctx ip (answer_blocked ip)

  unfoldable pub continue_to_before_send_headers : NetError → InProgressRequest → InProgressRequest
  continue_to_before_send_headers ok ip =
      if not (is_empty (redirect_url_of ip.ctx).spec)
      then handle_before_request_redirect net ip
      else answer_or_start (record ip {
        request = with_referrer ip.ctx ip.request;
        proxied_client = resume_receiver ip.proxied_client;
      })
  continue_to_before_send_headers error ip = on_request_error net (status_of error) ip

  abbrev before_request : InProgressRequest → Ctx → InProgressRequest
  before_request ip ctx =
      let (rv, h, context) =
        on_before_url_request net.parse net.extensions ip.handler ctx.context empty_gurl in
      after_event (continue_to_before_send_headers ok) rv (leave_ctx ctx (h, context) ip)

  -- Restart: RestartInternal, since UpdateRequestInfo is empty.
  unfoldable pub restart : InProgressRequest → InProgressRequest
  restart ip =
      let fresh = create_brave_request_info net (record ip { request_completed = false }) in
      with_ctx fresh.ctx fresh (before_request fresh)

  abbrev remove_all : List String → List (String × String) → List (String × String)
  remove_all [] headers = headers
  remove_all (name ∷ names) headers = remove_all names (net.remove_header headers name)

  abbrev or_url : Option Gurl → Gurl → Gurl
  or_url none url = url
  or_url (some new_url) url = new_url

  unfoldable pub followed_request : HeadersUpdate → Option Gurl → ResourceRequest → ResourceRequest
  followed_request update new_url request = record request {
    url = or_url new_url request.url;
    headers =
        net.merge_from (remove_all update.removed_headers request.headers) update.modified_headers;
  }

  -- What FollowRedirect sets before it restarts the request.
  abbrev pub to_restart : HeadersUpdate → Option Gurl → InProgressRequest → InProgressRequest
  to_restart update new_url ip = record ip {
    request = followed_request update new_url ip.request;
    pending_follow_redirect_params =
        if ip.target_loader_bound
        then some (record { update = update; new_url = new_url })
        else ip.pending_follow_redirect_params;
  }

  unfoldable pub follow_redirect :
      HeadersUpdate → Option Gurl → InProgressRequest → InProgressRequest
  follow_redirect update new_url ip = restart (to_restart update new_url ip)
