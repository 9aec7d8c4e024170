-- ===== src/Loader/Refinement.antt =====
-- The operations that lead up to the network request keep the promise of Protocol
-- (chrome/browser/net/brave_proxying_url_loader_factory.cc).
use mathlib.Core.List.{append-nil, append_assoc}
use chromium_adblock.Base.{
  ℕ, Bool, true, false, not, ◌&&◌, ◌||◌, ◌≡◌, refl, sym, ap, Option, none, some, [], ◌∷◌, is_empty,
  if◌then◌else◌,
}
use chromium_adblock.Web.{scheme_is_http_or_https}
use chromium_adblock.Delegate.Types.{should_mock_request}
use chromium_adblock.Handler.Types.{NetError, ok, io_pending, blocked_by_client, failed}
use chromium_adblock.Context.{Ctx}
use chromium_adblock.Loader.Types.{
  RedirectInfo, CompletionStatus, FollowRedirectParams, resume_receiver, received_redirect,
  received_response, completed, created_loader, followed_redirect, wrote_body, InProgressRequest,
  emit, Net,
}
use chromium_adblock.Loader.Start.{
  collapse, create_loader, remove_request, on_request_error, create_brave_request_info,
  is_not_blocked, ctx_blocked_by, continue_to_start_request, flush_follow_redirect,
  continue_to_send_headers, with_ctx, redirect_url_of,
}
use chromium_adblock.Loader.Redirect.{continue_to_before_redirect, handle_before_request_redirect}
use chromium_adblock.Loader.Before.{
  after_event, start_transaction, respond, answer_blocked, continue_to_before_send_headers, restart,
}
use chromium_adblock.Loader.Protocol.{
  has_no_error, stop, tell, tell_dropping, end, Refines, Refines-refl, Refines-trans,
}

abbrev resumed : InProgressRequest → InProgressRequest
resumed ip = record ip { proxied_client = resume_receiver ip.proxied_client }

module _ (net : Net) where
  pub end_quietly : (ip : InProgressRequest) → Refines ip (remove_request ip)
  unfolding remove_request
  end_quietly ip = ([], sym (append-nil ip.effects), end stop)

  pub on_request_error-Refines :
      (status : CompletionStatus) (ip : InProgressRequest)
      → ip.removed ≡ false
      → Refines ip (on_request_error net status ip)
  unfolding on_request_error remove_request
  on_request_error-Refines status ip live = by_told ip.request_completed refl
    where
      by_told :
          (told : Bool)
          → told ≡ ip.request_completed
          → Refines ip (
              remove_request
                (if told then ip else emit (completed (collapse net ip.ctx status)) ip))
      by_told true e = ([], sym (append-nil ip.effects), end stop)
      by_told false e = (
        completed (collapse net ip.ctx status) ∷ [],
        refl,
        tell live
            (ap (λ told. not told || has_no_error (collapse net ip.ctx status).error_code) (sym e))
            stop,
      )

  create_loader-Refines :
      (loader factory : Bool) (ip : InProgressRequest)
      → ip.removed ≡ false
      → loader ≡ ip.target_loader_bound
      → Refines ip (if not loader && factory then create_loader net ip else ip)
  create_loader-Refines true factory ip live e = Refines-refl ip
  create_loader-Refines false false ip live e = Refines-refl ip
  create_loader-Refines false true ip live e =
      (created_loader ip.request ∷ [], refl, tell live (ap not (sym e)) stop)

  continue_to_start_request-Refines :
      (error : NetError) (ip : InProgressRequest)
      → ip.removed ≡ false
      → Refines ip (continue_to_start_request net error ip)
  unfolding continue_to_start_request
  continue_to_start_request-Refines ok ip live =
      create_loader-Refines ip.target_loader_bound ip.target_factory_bound
        (record ip { proxied_client = resume_receiver ip.proxied_client }) live refl
  continue_to_start_request-Refines io_pending ip live = on_request_error-Refines _ ip live
  continue_to_start_request-Refines blocked_by_client ip live = on_request_error-Refines _ ip live
  continue_to_start_request-Refines (failed code) ip live = on_request_error-Refines _ ip live

  -- A step that keeps the request alive, and what follows it.
  abbrev RefinesAlive : InProgressRequest → InProgressRequest → Type 0
  RefinesAlive ip ip' = Refines ip ip' × (ip'.removed ≡ false)

  tell_follow_redirect :
      (loader : Bool) (params : FollowRedirectParams) (ip : InProgressRequest)
      → ip.removed ≡ false
      → loader ≡ ip.target_loader_bound
      → RefinesAlive ip (if loader then emit (followed_redirect params) ip else ip)
  tell_follow_redirect true params ip live e =
      ((followed_redirect params ∷ [], refl, tell live (sym e) stop), live)
  tell_follow_redirect false params ip live e = (Refines-refl ip, live)

  flush_follow_redirect-Refines :
      (pending : Option FollowRedirectParams) (ip : InProgressRequest)
      → ip.removed ≡ false
      → RefinesAlive ip (flush_follow_redirect net pending ip)
  flush_follow_redirect-Refines none ip live = (Refines-refl ip, live)
  flush_follow_redirect-Refines (some params) ip live =
      tell_follow_redirect ip.target_loader_bound _
        (record ip { pending_follow_redirect_params = none }) live refl

  pub continue_to_send_headers-Refines :
      (error : NetError) (ip : InProgressRequest)
      → ip.removed ≡ false
      → Refines ip (continue_to_send_headers net error ip)
  unfolding continue_to_send_headers
  continue_to_send_headers-Refines ok ip live =
      let (told, alive) = flush_follow_redirect-Refines ip.pending_follow_redirect_params ip live in
      let flushed = resumed (flush_follow_redirect net ip.pending_follow_redirect_params ip) in
      Refines-trans ip flushed (continue_to_start_request net ok flushed) told
        (continue_to_start_request-Refines ok flushed alive)
  continue_to_send_headers-Refines io_pending ip live = on_request_error-Refines _ ip live
  continue_to_send_headers-Refines blocked_by_client ip live = on_request_error-Refines _ ip live
  continue_to_send_headers-Refines (failed code) ip live = on_request_error-Refines _ ip live

  pub continue_to_before_redirect-Refines :
      (info : RedirectInfo) (error : NetError) (ip : InProgressRequest)
      → ip.removed ≡ false
      → Refines ip (continue_to_before_redirect net info error ip)
  unfolding continue_to_before_redirect
  continue_to_before_redirect-Refines info ok ip live =
      (received_redirect info ip.current_response_head ∷ [], refl, tell live refl stop)
  continue_to_before_redirect-Refines info io_pending ip live = on_request_error-Refines _ ip live
  continue_to_before_redirect-Refines info blocked_by_client ip live =
      on_request_error-Refines _ ip live
  continue_to_before_redirect-Refines info (failed code) ip live =
      on_request_error-Refines _ ip live

  handle_before_request_redirect-Refines :
      (ip : InProgressRequest)
      → ip.removed ≡ false
      → Refines ip (handle_before_request_redirect net ip)
  unfolding handle_before_request_redirect continue_to_before_redirect
  handle_before_request_redirect-Refines ip live =
      (received_redirect _ _ ∷ [], refl, tell_dropping live stop)

  pub with_ctx-Refines :
      (ctx : Option Ctx) (ip : InProgressRequest) (use_ctx : Ctx → InProgressRequest)
      → ((c : Ctx) → Refines ip (use_ctx c))
      → Refines ip (with_ctx ctx ip use_ctx)
  with_ctx-Refines none ip use_ctx each = Refines-refl ip
  with_ctx-Refines (some c) ip use_ctx each = each c

  pub after_event-Refines :
      (go_on : InProgressRequest → InProgressRequest) (rv : NetError) (ip : InProgressRequest)
      → ip.removed ≡ false
      → Refines ip (go_on ip)
      → Refines ip (after_event net go_on rv ip)
  after_event-Refines go_on ok ip live then_on = then_on
  after_event-Refines go_on io_pending ip live then_on = Refines-refl ip
  after_event-Refines go_on blocked_by_client ip live then_on = on_request_error-Refines _ ip live
  after_event-Refines go_on (failed code) ip live then_on = then_on

  pub choose-Refines :
      (test : Bool) (ip a b : InProgressRequest)
      → Refines ip a
      → Refines ip b
      → Refines ip (if test then a else b)
  choose-Refines true ip a b p q = p
  choose-Refines false ip a b p q = q

  start_transaction-Refines :
      (ip : InProgressRequest) → ip.removed ≡ false → Refines ip (start_transaction net ip)
  unfolding start_transaction create_brave_request_info
  start_transaction-Refines ip live =
      choose-Refines (scheme_is_http_or_https ip.request.url) ip _ _
        (after_event-Refines (continue_to_send_headers net ok) _ _ live
          (continue_to_send_headers-Refines ok _ live))
        (continue_to_send_headers-Refines ok ip live)

  respond-Refines :
      (pipe : Option ℕ) (ip : InProgressRequest) (ctx : Ctx)
      → ip.removed ≡ false
      → Refines ip (respond net ip ctx pipe)
  respond-Refines none ip ctx live = on_request_error-Refines _ ip live
  respond-Refines (some consumer) ip ctx live = (
    received_response _ _ _ ∷ wrote_body _ ∷ [],
    append_assoc ip.effects _ _,
    tell live refl (tell live refl stop),
  )

  answer_blocked-Refines :
      (ip : InProgressRequest) (ctx : Ctx)
      → ip.removed ≡ false
      → Refines ip (answer_blocked net ip ctx)
  unfolding answer_blocked
  answer_blocked-Refines ip ctx live =
      choose-Refines (not (should_mock_request ctx.context.info)) ip _ _
        (on_request_error-Refines _ ip live) (respond-Refines net.pipe ip ctx live)

  pub continue_to_before_send_headers-Refines :
      (error : NetError) (ip : InProgressRequest)
      → ip.removed ≡ false
      → Refines ip (continue_to_before_send_headers net error ip)
  unfolding continue_to_before_send_headers
  continue_to_before_send_headers-Refines ok ip live =
      choose-Refines (not (is_empty (redirect_url_of ip.ctx).spec)) ip _ _
        (handle_before_request_redirect-Refines ip live)
        (choose-Refines (is_not_blocked (ctx_blocked_by ip.ctx)) ip _ _
          (start_transaction-Refines _ live)
          (with_ctx-Refines ip.ctx _ _ (λ ctx. answer_blocked-Refines _ ctx live)))
  continue_to_before_send_headers-Refines io_pending ip live = on_request_error-Refines _ ip live
  continue_to_before_send_headers-Refines blocked_by_client ip live =
      on_request_error-Refines _ ip live
  continue_to_before_send_headers-Refines (failed code) ip live = on_request_error-Refines _ ip live

  -- From the moment that the request counts as not completed.
  pub restart-Refines :
      (ip : InProgressRequest)
      → ip.removed ≡ false
      → Refines (record ip { request_completed = false }) (restart net ip)
  unfolding restart create_brave_request_info
  restart-Refines ip live =
      after_event-Refines (continue_to_before_send_headers net ok) _ _ live
        (continue_to_before_send_headers-Refines ok _ live)
