-- ===== src/Loader/Answers.antt =====
-- The answers to the network and to the client keep the promise of Protocol
-- (chrome/browser/net/brave_proxying_url_loader_factory.cc).
use chromium_adblock.Base.{
  not, ◌||◌, ℕ, String, Bool, true, false, ◌==◌, ◌&&◌, ◌=s=◌, ◌≡◌, refl, sym, ap, Option, none,
  some, [], ◌∷◌, if◌then◌else◌,
}
use chromium_adblock.Web.{scheme_is_http_or_https}
use chromium_adblock.Handler.Types.{NetError, ok, io_pending, blocked_by_client, failed}
use chromium_adblock.Stub.{ResponseHeaders}
use chromium_adblock.Loader.Types.{
  CompletionStatus, received_redirect, received_response, completed, priority_set,
  loader_reset_with_reason, InProgressRequest, emit, Net,
}
use chromium_adblock.Loader.Start.{remove_request, create_brave_request_info}
use chromium_adblock.Loader.Redirect.{continue_to_before_redirect}
use chromium_adblock.Loader.Response.{
  handle_response_or_redirect_headers, start_response, override_location,
  continue_to_response_started, complete_with, on_complete, on_loader_disconnected,
}
use chromium_adblock.Loader.Events.{
  Continuation, to_before_send_headers, to_send_headers, to_response_started, to_before_redirect,
  continue_to, set_priority,
}
use chromium_adblock.Loader.Protocol.{
  has_no_error, stop, tell, tell_dropping, end, Refines, Refines-refl,
}
use chromium_adblock.Loader.Refinement.{
  end_quietly, on_request_error-Refines, continue_to_send_headers-Refines,
  continue_to_before_redirect-Refines, after_event-Refines, choose-Refines,
  continue_to_before_send_headers-Refines,
}

module _ (net : Net) where
  pub handle_response_or_redirect_headers-Refines :
      (go_on : InProgressRequest → InProgressRequest) (ip : InProgressRequest)
      → ip.removed ≡ false
      → ((next : InProgressRequest) → next.removed ≡ false → Refines next (go_on next))
      → Refines ip (handle_response_or_redirect_headers net go_on ip)
  unfolding handle_response_or_redirect_headers create_brave_request_info
  handle_response_or_redirect_headers-Refines go_on ip live each =
      choose-Refines net (scheme_is_http_or_https ip.request.url) ip _ _
        (after_event-Refines net go_on _ _ live (each _ live)) (each _ live)

  start_response-Refines :
      (location : Option (ResponseHeaders × String)) (ip : InProgressRequest)
      → ip.removed ≡ false
      → Refines ip (start_response net location ip)
  unfolding continue_to_before_redirect
  start_response-Refines none ip live = (received_response _ _ _ ∷ [], refl, tell live refl stop)
  start_response-Refines (some location) ip live =
      (received_redirect _ _ ∷ [], refl, tell_dropping live stop)

  pub continue_to_response_started-Refines :
      (error : NetError) (ip : InProgressRequest)
      → ip.removed ≡ false
      → Refines ip (continue_to_response_started net error ip)
  unfolding continue_to_response_started
  continue_to_response_started-Refines ok ip live =
      start_response-Refines (override_location net ip.override_headers) _ live
  continue_to_response_started-Refines io_pending ip live = on_request_error-Refines net _ ip live
  continue_to_response_started-Refines blocked_by_client ip live =
      on_request_error-Refines net _ ip live
  continue_to_response_started-Refines (failed code) ip live =
      on_request_error-Refines net _ ip live

  complete_with-Refines :
      (error : NetError) (status : CompletionStatus) (ip : InProgressRequest)
      → ip.removed ≡ false
      → error ≡ status.error_code
      → Refines ip (complete_with net error status ip)
  unfolding remove_request
  complete_with-Refines ok status ip live e =
      (completed status ∷ [], refl, tell live (accepted ip.request_completed) stop)
    where
      accepted : (told : Bool) → (not told || has_no_error status.error_code) ≡ true
      accepted true = ap has_no_error (sym e)
      accepted false = refl
  complete_with-Refines io_pending status ip live e = on_request_error-Refines net status ip live
  complete_with-Refines blocked_by_client status ip live e =
      on_request_error-Refines net status ip live
  complete_with-Refines (failed code) status ip live e = on_request_error-Refines net status ip live

  pub on_complete-Refines :
      (status : CompletionStatus) (ip : InProgressRequest)
      → ip.removed ≡ false
      → Refines ip (on_complete net status ip)
  unfolding on_complete
  on_complete-Refines status ip live = complete_with-Refines status.error_code status ip live refl

  pub on_loader_disconnected-Refines :
      (reason : ℕ) (description : String) (ip : InProgressRequest)
      → ip.removed ≡ false
      → Refines ip (on_loader_disconnected net reason description ip)
  unfolding on_loader_disconnected remove_request
  on_loader_disconnected-Refines reason description ip live =
      choose-Refines net
        (reason == net.client_disconnect_reason && description =s= net.follow_redirect_reason) ip _
        _ (by_loader ip.target_loader_bound refl) (on_request_error-Refines net _ ip live)
    where
      by_loader :
          (loader : Bool)
          → loader ≡ ip.target_loader_bound
          → Refines ip (
              remove_request (
                if loader
                then emit
                    (loader_reset_with_reason reason description)
                    (record ip { target_loader_bound = false })
                else ip))
      by_loader false e = end_quietly net ip
      by_loader true e =
          (loader_reset_with_reason reason description ∷ [], refl, tell live (sym e) (end stop))

  pub set_priority-Refines :
      (priority intra : ℕ) (ip : InProgressRequest)
      → ip.removed ≡ false
      → Refines ip (set_priority net priority intra ip)
  unfolding set_priority
  set_priority-Refines priority intra ip live = by_loader ip.target_loader_bound refl
    where
      by_loader :
          (loader : Bool)
          → loader ≡ ip.target_loader_bound
          → Refines ip (if loader then emit (priority_set priority intra) ip else ip)
      by_loader false e = Refines-refl ip
      by_loader true e = (priority_set priority intra ∷ [], refl, tell live (sym e) stop)

  pub continue_to-Refines :
      (continuation : Continuation) (error : NetError) (ip : InProgressRequest)
      → ip.removed ≡ false
      → Refines ip (continue_to net continuation error ip)
  continue_to-Refines to_before_send_headers error ip live =
      continue_to_before_send_headers-Refines net error ip live
  continue_to-Refines to_send_headers error ip live =
      continue_to_send_headers-Refines net error ip live
  continue_to-Refines to_response_started error ip live =
      continue_to_response_started-Refines error ip live
  continue_to-Refines (to_before_redirect info) error ip live =
      continue_to_before_redirect-Refines net info error ip live
