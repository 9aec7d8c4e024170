-- ===== src/Loader/Sent.antt =====
-- A request that is sent to the network (chrome/browser/net/brave_proxying_url_loader_factory.cc).

use chromium_adblock.Base.{
  Bool, true, false, ◌≡◌, subst, sym, ap, Option, none, some, [], ◌∷◌, ◌++◌, is_nil, arith,
  if◌then◌else◌,
}
use chromium_adblock.Web.{scheme_is_http_or_https}
use chromium_adblock.Handler.Types.{ok, Handler, on_url_request_destroyed}
use chromium_adblock.Handler.Events.{on_before_start_transaction}
use chromium_adblock.Context.{Ctx, ResourceRequest}
use chromium_adblock.Loader.Types.{bound, resume_receiver, created_loader, InProgressRequest, Net}
use chromium_adblock.Loader.Start.{
  destroy_ctx, create_brave_request_info, continue_to_send_headers, flush_follow_redirect,
  continue_to_start_request,
}
use chromium_adblock.Loader.Before.{start_transaction}

pub destroy_ctx-before_start_transaction :
    (weak : Bool) (ctx : Option Ctx) (h : Handler)
    → is_nil h.before_start_transaction_callbacks ≡ true
    → is_nil (if weak then destroy_ctx ctx h else h).before_start_transaction_callbacks ≡ true
unfolding on_url_request_destroyed
destroy_ctx-before_start_transaction false ctx h e = e
destroy_ctx-before_start_transaction true none h e = e
destroy_ctx-before_start_transaction true (some ctx) h e = e

module _ (net : Net) where
  -- It has made its loader with `request`.
  abbrev pub Sent : ResourceRequest → InProgressRequest → InProgressRequest → Type 0
  Sent request ip sent =
      (sent.effects ≡ ip.effects ++ created_loader request ∷ [])
      × (sent.target_loader_bound ≡ true)
      × (sent.proxied_client ≡ bound)
      × (sent.removed ≡ ip.removed)

  continue_to_start_request-Sent :
      (ip : InProgressRequest)
      → ip.target_loader_bound ≡ false
      → ip.target_factory_bound ≡ true
      → Sent ip.request ip (continue_to_start_request net ok ip)
  unfolding continue_to_start_request
  continue_to_start_request-Sent ip unbound_loader factory = ground arith

  continue_to_send_headers-Sent :
      (ip : InProgressRequest)
      → ip.pending_follow_redirect_params ≡ none
      → ip.target_loader_bound ≡ false
      → ip.target_factory_bound ≡ true
      → Sent ip.request ip (continue_to_send_headers net ok ip)
  unfolding continue_to_send_headers
  continue_to_send_headers-Sent ip nothing_pending unbound_loader factory =
      subst (λ after. Sent ip.request ip after)
        (ap
          (λ pending.
            let flushed = flush_follow_redirect net pending ip in
            continue_to_start_request net ok
              (record flushed { proxied_client = resume_receiver flushed.proxied_client }))
          (sym nothing_pending))
        (continue_to_start_request-Sent
          (record ip { proxied_client = resume_receiver ip.proxied_client }) unbound_loader factory)

  choose-Sent :
      (test : Bool) (request : ResourceRequest) (ip a b : InProgressRequest)
      → Sent request ip a
      → Sent request ip b
      → Sent request ip (if test then a else b)
  choose-Sent true request ip a b p q = p
  choose-Sent false request ip a b p q = q

  pub start_transaction-Sent :
      (ip : InProgressRequest)
      → is_nil ip.handler.before_start_transaction_callbacks ≡ true
      → ip.pending_follow_redirect_params ≡ none
      → ip.target_loader_bound ≡ false
      → ip.target_factory_bound ≡ true
      → Sent ip.request ip (start_transaction net ip)
  unfolding start_transaction create_brave_request_info on_before_start_transaction
  start_transaction-Sent ip no_callback nothing_pending unbound_loader factory =
      choose-Sent (scheme_is_http_or_https ip.request.url) ip.request ip _ _
        (rw (destroy_ctx-before_start_transaction net.weak_ctx ip.ctx ip.handler no_callback)
          (continue_to_send_headers-Sent _ nothing_pending unbound_loader factory))
        (continue_to_send_headers-Sent ip nothing_pending unbound_loader factory)
