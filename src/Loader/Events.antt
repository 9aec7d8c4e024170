-- ===== src/Loader/Events.antt =====
-- An InProgressRequest under any sequence of messages and replies
-- (chrome/browser/net/brave_proxying_url_loader_factory.cc).
use chromium_adblock.Base.{ℕ, String, Bool, false, Option, none, some, List, [], ◌∷◌, if◌then◌else◌}
use chromium_adblock.Web.{Gurl}
use chromium_adblock.Handler.Types.{NetError, Handler}
use chromium_adblock.Handler.Events.{run_next_callback}
use chromium_adblock.Context.{Ctx, ResourceRequest}
use chromium_adblock.Stub.{ResponseHead, ResponseHeaders, Content}
use chromium_adblock.Loader.Types.{
  RedirectInfo, CompletionStatus, HeadersUpdate, unbound, upload_progress, transfer_size_updated,
  priority_set, InProgressRequest, emit, Net,
}
use chromium_adblock.Loader.Start.{leave_ctx, with_ctx, continue_to_send_headers}
use chromium_adblock.Loader.Redirect.{continue_to_before_redirect}
use chromium_adblock.Loader.Before.{continue_to_before_send_headers, follow_redirect}
use chromium_adblock.Loader.Response.{
  continue_to_response_started, on_receive_response, on_receive_redirect, on_complete, on_write,
  on_loader_disconnected, on_client_disconnected,
}

-- The functions that a completion callback may be bound to.
pub data Continuation : Type 0 where
  to_before_send_headers to_send_headers to_response_started : Continuation
  to_before_redirect : RedirectInfo → Continuation

pub data Event : Type 0 where
  -- the client, as a network::mojom::URLLoader
  follows_redirect : HeadersUpdate → Option Gurl → Event
  sets_priority : ℕ → ℕ → Event
  loader_disconnects : ℕ → String → Event
  client_disconnects : Event
  -- the network, as a network::mojom::URLLoaderClient
  receives_early_hints : Event
  receives_response : Option ResponseHead → Option ℕ → Option ℕ → Event
  receives_redirect : RedirectInfo → Option ResponseHead → Event
  makes_upload_progress : ℕ → ℕ → Event
  updates_transfer_size : ℕ → Event
  completes_load : CompletionStatus → Event
  -- the handler: it completes an event, a callback that had waited replies, or one replaces the
  -- response headers
  continues : Continuation → NetError → Event
  replies : (Ctx → Ctx) → Event
  overrides : ResponseHeaders → Event
  -- the pipe of a stand-in: the first body under way is written, or is not
  writes : Bool → Event
  -- the factory loses `target_factory_`
  loses_target_factory : Event

module _ (net : Net) where
  abbrev pub continue_to : Continuation → NetError → InProgressRequest → InProgressRequest
  continue_to to_before_send_headers error ip = continue_to_before_send_headers net error ip
  continue_to to_send_headers error ip = continue_to_send_headers net error ip
  continue_to to_response_started error ip = continue_to_response_started net error ip
  continue_to (to_before_redirect info) error ip = continue_to_before_redirect net info error ip

  abbrev run_reply : (Ctx → Ctx) → InProgressRequest → Ctx → InProgressRequest
  run_reply reply ip ctx =
      leave_ctx (reply ctx) (run_next_callback net.parse ip.handler (reply ctx).context) ip

  abbrev pub after_write : Bool → List Content → InProgressRequest → InProgressRequest
  after_write written [] ip = ip
  after_write written (body ∷ later) ip = on_write net written body (record ip { writing = later })

  unfoldable pub set_priority : ℕ → ℕ → InProgressRequest → InProgressRequest
  set_priority priority intra_priority_value ip =
      if ip.target_loader_bound then emit (priority_set priority intra_priority_value) ip else ip

  unfoldable pub handle : Event → InProgressRequest → InProgressRequest
  handle (follows_redirect update new_url) ip = follow_redirect net update new_url ip
  handle (sets_priority priority intra) ip = set_priority priority intra ip
  handle (loader_disconnects reason text) ip = on_loader_disconnected net reason text ip
  handle client_disconnects ip = on_client_disconnected net ip
  handle receives_early_hints ip = ip
  handle (receives_response head body meta) ip = on_receive_response net head body meta ip
  handle (receives_redirect info head) ip = on_receive_redirect net info head ip
  handle (makes_upload_progress position total) ip = emit (upload_progress position total) ip
  handle (updates_transfer_size diff) ip = emit (transfer_size_updated diff) ip
  handle (completes_load status) ip = on_complete net status ip
  handle (continues continuation error) ip = continue_to continuation error ip
  handle (replies reply) ip = with_ctx ip.ctx ip (run_reply reply ip)
  handle (overrides headers) ip = record ip { override_headers = some headers }
  handle (writes written) ip = after_write written ip.writing ip
  handle loses_target_factory ip = record ip { target_factory_bound = false }

  -- Nothing reaches a request that has been deleted: its ends are closed, and its callbacks hold
  -- weak pointers.
  unfoldable pub deliver : Event → InProgressRequest → InProgressRequest
  deliver event ip = if ip.removed then ip else handle event ip

  unfoldable pub run : List Event → InProgressRequest → InProgressRequest
  run [] ip = ip
  run (event ∷ events) ip = run events (deliver event ip)

  -- The constructor, for a request that the factory has made.
  unfoldable pub new_request : Handler → Bool → ℕ → ResourceRequest → InProgressRequest
  new_request h target_factory_bound request_id request = record {
    handler = h;
    target_factory_bound = target_factory_bound;
    request_id = request_id;
    request = request;
    ctx = none;
    proxied_client = unbound;
    target_loader_bound = false;
    current_response_head = none;
    current_response_body = none;
    cached_metadata = none;
    override_headers = none;
    request_completed = false;
    pending_follow_redirect_params = none;
    removed = false;
    writing = [];
    effects = [];
  }
