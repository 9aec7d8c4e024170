-- ===== src/Loader/Redirect.antt =====
-- A redirect, the network's or the proxy's own, on its way to the client
-- (chrome/browser/net/brave_proxying_url_loader_factory.cc).
use Prim.Native.String.{◌++◌ as concat}
use chromium_adblock.Base.{Bool, true, false, not, ◌&&◌, ◌=s=◌, Option, none, some, if◌then◌else◌}
use chromium_adblock.Web.{Gurl}
use chromium_adblock.Handler.Types.{NetError, ok}
use chromium_adblock.Context.{ResourceRequest, Origin}
use chromium_adblock.Stub.{ResponseHead}
use chromium_adblock.Loader.Types.{
  RedirectInfo, unbound, resume_receiver, received_redirect, InProgressRequest, emit, Net,
}
use chromium_adblock.Loader.Start.{
  create_redirect_info, status_of, on_request_error, redirect_url_of, set_internal_redirect,
  set_redirect_source,
}

module _ (net : Net) where
  abbrev redirect_trusted : RedirectInfo → Option (Option Origin) → Option (Option Origin)
  redirect_trusted info none = none
  redirect_trusted info (some top) =
      some (net.create_for_redirect top (net.origins.create info.new_url))

  -- The request that the redirect leads to; a method changed to GET has no body.
  unfoldable pub redirected_request : RedirectInfo → ResourceRequest → ResourceRequest
  redirected_request info request = record request {
    url = info.new_url;
    method = info.new_method;
    site_for_cookies = info.new_site_for_cookies;
    referrer = net.parse info.new_referrer;
    referrer_policy = info.new_referrer_policy;
    trusted_params = redirect_trusted info request.trusted_params;
    request_body = if info.new_method =s= "GET" then none else request.request_body;
  }

  unfoldable pub continue_to_before_redirect :
      RedirectInfo → NetError → InProgressRequest → InProgressRequest
  continue_to_before_redirect info ok ip =
      record (emit (received_redirect info ip.current_response_head) (record ip {
        proxied_client = resume_receiver ip.proxied_client;
        ctx = set_redirect_source ip.request ip.ctx;
        current_response_head = none;
      })) { request = redirected_request info ip.request; request_completed = true }
  continue_to_before_redirect info error ip = on_request_error net (status_of error) ip

  abbrev is_same_origin : Gurl → Gurl → Bool
  is_same_origin a b = net.origins.is_same_origin_with (net.origins.create a) (net.origins.create b)

  -- The taint of step 10 of the HTTP-redirect fetch: an initiator that has neither the origin that
  -- the request goes to, when the redirect leaves that origin, becomes opaque.
  unfoldable pub redirect_initiator : Gurl → ResourceRequest → Option Origin
  redirect_initiator redirect_url request = elim request.request_initiator [
    | none ↦ none
    | some initiator ↦
        if not (is_same_origin redirect_url request.url)
          && not (net.origins.is_same_origin_with initiator (net.origins.create request.url))
        then some net.origins.opaque
        else some initiator
  ]

  abbrev internal_redirect_head : Gurl → ResponseHead
  internal_redirect_head redirect_url = record {
    mime_type = "";
    headers = some (
        net.assemble_raw_headers (
          concat "HTTP/1.1 307 Internal Redirect\nLocation: "
            (concat redirect_url.spec "\nNon-Authoritative-Reason: WebRequest API\n\n")));
    parsed_headers = none;
    encoded_data_length = 0;
  }

  -- HandleBeforeRequestRedirect; the RedirectInfo is made before the initiator is reset.
  unfoldable pub handle_before_request_redirect : InProgressRequest → InProgressRequest
  handle_before_request_redirect ip =
      let redirect_url = redirect_url_of ip.ctx in
      continue_to_before_redirect (create_redirect_info net ip.request redirect_url 307 none) ok
        (record ip {
          proxied_client = unbound;
          target_loader_bound = false;
          request = record ip.request {
            request_initiator = redirect_initiator redirect_url ip.request;
          };
          current_response_head = some (internal_redirect_head redirect_url);
          ctx = set_internal_redirect true ip.ctx;
        })
