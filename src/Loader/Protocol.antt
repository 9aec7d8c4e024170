-- ===== src/Loader/Protocol.antt =====
-- What an InProgressRequest promises to its client and to the network
-- (network::mojom::URLLoaderClient and URLLoader, as
-- chrome/browser/net/brave_proxying_url_loader_factory.cc uses them): which message may be sent in
-- which state, and what a trace of messages is.
use mathlib.Core.List.{append-nil, append_assoc}
use chromium_adblock.Base.{
  Bool, true, false, not, ◌||◌, ◌≡◌, sym, ap, ◌∙◌, Option, List, [], ◌∷◌, ◌++◌, if◌then◌else◌,
}
use chromium_adblock.Handler.Types.{NetError, ok, io_pending, blocked_by_client, failed}
use chromium_adblock.Stub.{ResponseHead}
use chromium_adblock.Loader.Types.{
  RedirectInfo, Effect, received_response, received_redirect, completed, upload_progress,
  transfer_size_updated, created_loader, followed_redirect, priority_set, loader_reset_with_reason,
  wrote_body, InProgressRequest,
}
use chromium_adblock.Loader.Events.{
  Event, follows_redirect, sets_priority, loader_disconnects, client_disconnects,
  receives_early_hints, receives_response, receives_redirect, makes_upload_progress,
  updates_transfer_size, completes_load, continues, replies, overrides, writes,
  loses_target_factory,
}

-- The state that the promise is about: there is a loader, the client has been told of a redirect
-- that it has not followed yet, and the request is over.
pub record View : Type 0 where
  pub loader : Bool
  pub told : Bool
  pub done : Bool

abbrev pub view : InProgressRequest → View
view ip = record { loader = ip.target_loader_bound; told = ip.request_completed; done = ip.removed }

abbrev pub has_no_error : NetError → Bool
has_no_error ok = true
has_no_error io_pending = false
has_no_error blocked_by_client = false
has_no_error (failed code) = false

-- A loader is made where there is none, and told things only where there is one. A client that has
-- been told of a redirect is told of no error.
abbrev pub allowed : View → Effect → Bool
allowed v (created_loader request) = not v.loader
allowed v (followed_redirect params) = v.loader
allowed v (priority_set priority intra) = v.loader
allowed v (loader_reset_with_reason reason description) = v.loader
allowed v (completed status) = not v.told || has_no_error status.error_code
allowed v (received_response head body meta) = true
allowed v (received_redirect info head) = true
allowed v (upload_progress position total) = true
allowed v (transfer_size_updated diff) = true
allowed v (wrote_body body) = true

abbrev pub after_effect : View → Effect → View
after_effect v (created_loader request) = record v { loader = true }
after_effect v (followed_redirect params) = v
after_effect v (priority_set priority intra) = v
after_effect v (loader_reset_with_reason reason description) = record v { loader = false }
after_effect v (completed status) = record v { done = true }
after_effect v (received_response head body meta) = v
after_effect v (received_redirect info head) = record v { told = true }
after_effect v (upload_progress position total) = v
after_effect v (transfer_size_updated diff) = v
after_effect v (wrote_body body) = v

-- What may be sent from a state, one message after the other. The loader is dropped only with a
-- message of a redirect, and the request may end with no message.
pub data Trace : View → List Effect → View → Type 0 where
  stop : {v : View} → Trace v [] v
  tell :
      {v w : View} {e : Effect} {es : List Effect}
      → v.done ≡ false
      → allowed v e ≡ true
      → Trace (after_effect v e) es w
      → Trace v (e ∷ es) w
  tell_dropping :
      {v w : View} {info : RedirectInfo} {head : Option ResponseHead} {es : List Effect}
      → v.done ≡ false
      → Trace (record v { loader = false; told = true }) es w
      → Trace v (received_redirect info head ∷ es) w
  end : {v w : View} {es : List Effect} → Trace (record v { done = true }) es w → Trace v es w

pub Trace-append :
    {u v w : View} {es fs : List Effect} → Trace u es v → Trace v fs w → Trace u (es ++ fs) w
Trace-append stop q = q
Trace-append (tell live may p) q = tell live may (Trace-append p q)
Trace-append (tell_dropping live p) q = tell_dropping live (Trace-append p q)
Trace-append (end p) q = end (Trace-append p q)

-- The second request is the first after some steps that the promise allows, and the messages of
-- those steps are what it has said in between.
abbrev pub Refines : InProgressRequest → InProgressRequest → Type 0
Refines ip ip' =
    (es : List Effect) × (ip'.effects ≡ ip.effects ++ es) × Trace (view ip) es (view ip')

pub Refines-refl : (ip : InProgressRequest) → Refines ip ip
Refines-refl ip = ([], sym (append-nil ip.effects), stop)

pub Refines-trans : (a b c : InProgressRequest) → Refines a b → Refines b c → Refines a c
Refines-trans a b c (es, p, s) (fs, q, t) =
    (es ++ fs, q ∙ ap (λ before. before ++ fs) p ∙ append_assoc a.effects es fs, Trace-append s t)

-- The client's FollowRedirect ends the time in which it waits for one.
abbrev pub input : Event → View → View
input (follows_redirect update new_url) v = if v.done then v else record v { told = false }
input (sets_priority priority intra) v = v
input (loader_disconnects reason text) v = v
input client_disconnects v = v
input receives_early_hints v = v
input (receives_response head body meta) v = v
input (receives_redirect info head) v = v
input (makes_upload_progress position total) v = v
input (updates_transfer_size diff) v = v
input (completes_load status) v = v
input (continues continuation error) v = v
input (replies reply) v = v
input (overrides headers) v = v
input (writes written) v = v
input loses_target_factory v = v

-- The messages `es` answer the events in their order.
pub data Conforms : View → List Event → List Effect → View → Type 0 where
  at_end : {v : View} → Conforms v [] [] v
  answers :
      {v u w : View} {event : Event} {events : List Event} {es fs gs : List Effect}
      → Trace (input event v) es u
      → Conforms u events fs w
      → gs ≡ es ++ fs
      → Conforms v (event ∷ events) gs w
