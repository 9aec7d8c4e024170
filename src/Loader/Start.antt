-- ===== src/Loader/Start.antt =====
-- An InProgressRequest from its start to the network request, or to what comes in its place
-- (chrome/browser/net/brave_proxying_url_loader_factory.cc).

use chromium_adblock.Base.{
  ℕ, String, Bool, true, false, not, ◌&&◌, ◌||◌, Option, none, some, List, [], ◌∷◌, ◌++◌,
  if◌then◌else◌,
}
use chromium_adblock.Web.{Gurl}
use chromium_adblock.Delegate.Types.{
  BlockedBy, not_blocked, ad_blocked, other_blocked, is_ad_blocked,
}
use chromium_adblock.Handler.Types.{NetError, ok, Context, Handler, on_url_request_destroyed}
use chromium_adblock.Context.{Ctx, ResourceRequest, make_ctx, empty_gurl}
use chromium_adblock.Loader.Types.{
  RedirectInfo, CompletionStatus, FollowRedirectParams, bound, resume_receiver, completed,
  created_loader, followed_redirect, InProgressRequest, emit, Net,
}

-- CreateRedirectInfo: a download is known by its main frame.
unfoldable pub create_redirect_info :
    Net → ResourceRequest → Gurl → ℕ → Option String → RedirectInfo
create_redirect_info net request new_url response_code referrer_policy_header =
    net.compute_redirect_info request
      (request.update_first_party_url_on_redirect || request.is_outermost_main_frame) response_code
      new_url referrer_policy_header

abbrev pub status_of : NetError → CompletionStatus
status_of error = record {
  error_code = error;
  should_collapse_initiator = false;
  encoded_data_length = 0;
  encoded_body_length = 0;
  decoded_body_length = 0;
}

abbrev pub ctx_blocked_by : Option Ctx → BlockedBy
ctx_blocked_by none = not_blocked
ctx_blocked_by (some ctx) = ctx.context.info.blocked_by

abbrev pub destroy_ctx : Option Ctx → Handler → Handler
destroy_ctx none h = h
destroy_ctx (some ctx) h = on_url_request_destroyed h ctx.context

-- RemoveRequest, as far as the request goes: it is deleted, and its destructor tells the handler.
unfoldable pub remove_request : InProgressRequest → InProgressRequest
remove_request ip = record ip { handler = destroy_ctx ip.ctx ip.handler; removed = true }

abbrev pub is_not_blocked : BlockedBy → Bool
is_not_blocked not_blocked = true
is_not_blocked ad_blocked = false
is_not_blocked other_blocked = false

-- The handler may work on a context; without one it is not called.
abbrev pub with_ctx : {A : Type 0} → Option Ctx → A → (Ctx → A) → A
with_ctx none otherwise use_ctx = otherwise
with_ctx (some ctx) otherwise use_ctx = use_ctx ctx

-- What the handler leaves of its state and of the context.
abbrev pub leave_ctx : Ctx → Handler × Context → InProgressRequest → InProgressRequest
leave_ctx ctx (h, context) ip = record ip {
  handler = h;
  ctx = some (record ctx { context = context });
}

-- `redirect_url_` is the GURL that the handler was given a pointer to.
abbrev pub redirect_url_of : Option Ctx → Gurl
redirect_url_of none = empty_gurl
redirect_url_of (some ctx) = elim ctx.context.new_url [ none ↦ empty_gurl | some url ↦ url ]

abbrev pub with_referrer : Option Ctx → ResourceRequest → ResourceRequest
with_referrer none request = request
with_referrer (some ctx) request = elim ctx.new_referrer [
  | none ↦ request
  | some referrer ↦ record request { referrer = referrer }
]

abbrev pub set_internal_redirect : Bool → Option Ctx → Option Ctx
set_internal_redirect value none = none
set_internal_redirect value (some ctx) = some (record ctx { internal_redirect = value })

abbrev redirect_source_of : Ctx → ResourceRequest → Gurl
redirect_source_of ctx request = if ctx.internal_redirect then empty_gurl else request.url

abbrev pub set_redirect_source : ResourceRequest → Option Ctx → Option Ctx
set_redirect_source request none = none
set_redirect_source request (some ctx) =
    some (record ctx { redirect_source = redirect_source_of ctx request })

module _ (net : Net) where
  abbrev pub collapse : Option Ctx → CompletionStatus → CompletionStatus
  collapse ctx status =
      if net.collapse_blocked_elements && is_ad_blocked (ctx_blocked_by ctx)
      then record status { should_collapse_initiator = true }
      else status

  -- OnRequestError. A client that has been told of a redirect is not told of the error.
  unfoldable pub on_request_error : CompletionStatus → InProgressRequest → InProgressRequest
  on_request_error status ip =
      remove_request
        (if ip.request_completed then ip else emit (completed (collapse ip.ctx status)) ip)

  -- CreateBraveRequestInfo, of both kinds of pointer.
  unfoldable pub create_brave_request_info : InProgressRequest → InProgressRequest
  create_brave_request_info ip = record ip {
    handler = if net.weak_ctx then destroy_ctx ip.ctx ip.handler else ip.handler;
    ctx = some (
        make_ctx net.origins ip.request ip.request_id net.has_browser_context net.committed ip.ctx);
  }

  -- `target_factory_->CreateLoaderAndStart`, which binds both ends.
  abbrev pub create_loader : InProgressRequest → InProgressRequest
  create_loader ip =
      emit (created_loader ip.request)
        (record ip { proxied_client = bound; target_loader_bound = true })

  unfoldable pub continue_to_start_request : NetError → InProgressRequest → InProgressRequest
  continue_to_start_request ok ip =
      let resumed = record ip { proxied_client = resume_receiver ip.proxied_client } in
      if not ip.target_loader_bound && ip.target_factory_bound
      then create_loader resumed
      else resumed
  continue_to_start_request error ip = on_request_error (status_of error) ip

  -- The headers that the callbacks have changed, as they are in the request. The source CHECKs
  -- that each is there.
  abbrev set_modified :
      ResourceRequest → List String → List (String × String) → List (String × String)
  set_modified request [] headers = headers
  set_modified request (name ∷ names) headers =
      set_modified request names (elim (net.get_header request.headers name) [
        | none ↦ headers
        | some value ↦ net.set_header headers name value
      ])

  abbrev pub combine_headers :
      ResourceRequest → List String → List String → FollowRedirectParams → FollowRedirectParams
  combine_headers request removed modified params = record params {
    update = record params.update {
      removed_headers = params.update.removed_headers ++ removed;
      modified_headers = set_modified request modified params.update.modified_headers;
    };
  }

  abbrev removed_of : Option Ctx → List String
  removed_of none = []
  removed_of (some ctx) = ctx.removed_headers

  abbrev modified_of : Option Ctx → List String
  modified_of none = []
  modified_of (some ctx) = ctx.modified_headers

  -- The pending parameters go to the loader, if there is one, and are reset.
  abbrev pub flush_follow_redirect :
      Option FollowRedirectParams → InProgressRequest → InProgressRequest
  flush_follow_redirect none ip = ip
  flush_follow_redirect (some params) ip =
      let flushed = record ip { pending_follow_redirect_params = none } in
      if ip.target_loader_bound
      then emit
          (followed_redirect
            (combine_headers ip.request (removed_of ip.ctx) (modified_of ip.ctx) params))
          flushed
      else flushed

  unfoldable pub continue_to_send_headers : NetError → InProgressRequest → InProgressRequest
  continue_to_send_headers ok ip =
      let flushed = flush_follow_redirect ip.pending_follow_redirect_params ip in
      continue_to_start_request ok
        (record flushed { proxied_client = resume_receiver flushed.proxied_client })
  continue_to_send_headers error ip = on_request_error (status_of error) ip
