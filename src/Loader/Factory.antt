-- ===== src/Loader/Factory.antt =====
-- BraveProxyingURLLoaderFactory: its requests, its receivers and its own end
-- (chrome/browser/net/brave_proxying_url_loader_factory.cc).
use chromium_adblock.Base.{
  ℕ, suc, ◌-◌, Bool, true, false, not, ◌||◌, ◌==◌, Option, none, some, List, [], ◌∷◌, is_nil,
  if◌then◌else◌,
}
use chromium_adblock.Handler.Types.{Handler}
use chromium_adblock.Context.{ResourceRequest}
use chromium_adblock.Loader.Types.{InProgressRequest, Net}
use chromium_adblock.Loader.Before.{restart}
use chromium_adblock.Loader.Events.{Event, deliver, new_request}

-- `requests_`, the newest first; the requests that have been deleted are kept
-- in `gone`, for what they have said. `deleted` counts the runs of `disconnect_callback_`.
pub record Factory : Type 0 where
  pub handler : Handler
  pub target_factory_bound : Bool
  pub proxy_receivers : ℕ
  pub requests : List InProgressRequest
  pub gone : List InProgressRequest
  pub next_request_id : ℕ
  pub deleted : ℕ

-- The constructor, with the first receiver.
unfoldable pub new_factory : Handler → ℕ → Factory
new_factory h next_request_id = record {
  handler = h;
  target_factory_bound = true;
  proxy_receivers = 1;
  requests = [];
  gone = [];
  next_request_id = next_request_id;
  deleted = 0;
}

unfoldable pub maybe_remove_proxy : Factory → Factory
maybe_remove_proxy f =
    if f.target_factory_bound || not (is_nil f.requests)
    then f
    else record f { deleted = suc f.deleted }

abbrev pub without : ℕ → List InProgressRequest → List InProgressRequest
without id [] = []
without id (ip ∷ ips) = if ip.request_id == id then ips else ip ∷ without id ips

abbrev pub replaced : InProgressRequest → List InProgressRequest → List InProgressRequest
replaced new [] = []
replaced new (ip ∷ ips) =
    if ip.request_id == new.request_id then new ∷ ips else ip ∷ replaced new ips

abbrev pub request_of : ℕ → List InProgressRequest → Option InProgressRequest
request_of id [] = none
request_of id (ip ∷ ips) = if ip.request_id == id then some ip else request_of id ips

-- RemoveRequest.
unfoldable pub remove_from : InProgressRequest → Factory → Factory
unfolding maybe_remove_proxy
remove_from ip f =
    maybe_remove_proxy
      (record f { requests = without ip.request_id f.requests; gone = ip ∷ f.gone })

-- A request after it has done something: it has changed the handler, and may have removed itself.
unfoldable pub settle_request : InProgressRequest → Factory → Factory
unfolding remove_from
settle_request ip f =
    let changed = record f { handler = ip.handler } in
    if ip.removed
    then remove_from ip changed
    else record changed { requests = replaced ip f.requests }

-- The request with what it uses of the factory.
abbrev lend : Factory → InProgressRequest → InProgressRequest
lend f ip = record ip { handler = f.handler; target_factory_bound = f.target_factory_bound }

-- What reaches the factory. The connection is another library's: a receiver that is disconnected
-- has been taken out of the set when OnProxyBindingError runs.
pub data Call : Type 0 where
  create_loader_and_start : ResourceRequest → Call
  clone : Call
  target_factory_error : Call
  proxy_binding_error : Call
  request_event : ℕ → Event → Call

unfoldable pub on_target_factory_error : Factory → Factory
unfolding maybe_remove_proxy
on_target_factory_error f =
    maybe_remove_proxy (record f { target_factory_bound = false; proxy_receivers = 0 })

unfoldable pub on_proxy_binding_error : Factory → Factory
unfolding maybe_remove_proxy
on_proxy_binding_error f = maybe_remove_proxy (record f {
  target_factory_bound = if f.proxy_receivers == 0 then false else f.target_factory_bound;
})

module _ (net : Net) where
  unfoldable pub start_loader : ResourceRequest → Factory → Factory
  unfolding settle_request
  start_loader request f =
      let ip = new_request net f.handler f.target_factory_bound f.next_request_id request in
      settle_request (restart net ip)
        (record f { requests = ip ∷ f.requests; next_request_id = suc f.next_request_id })

  abbrev pub deliver_to : Option InProgressRequest → Event → Factory → Factory
  deliver_to none event f = f
  deliver_to (some ip) event f = settle_request (deliver net event (lend f ip)) f

  unfoldable pub call : Call → Factory → Factory
  unfolding start_loader settle_request on_target_factory_error on_proxy_binding_error
  call (create_loader_and_start request) f = start_loader request f
  call clone f = record f { proxy_receivers = suc f.proxy_receivers }
  call target_factory_error f = on_target_factory_error f
  call proxy_binding_error f =
      on_proxy_binding_error (record f { proxy_receivers = f.proxy_receivers - 1 })
  call (request_event id event) f = deliver_to (request_of id f.requests) event f

  abbrev is_zero : ℕ → Bool
  is_zero n = n == 0

  -- Nothing reaches a factory that has been deleted.
  unfoldable pub run_calls : List Call → Factory → Factory
  run_calls [] f = f
  run_calls (c ∷ cs) f = run_calls cs (if is_zero f.deleted then call c f else f)
