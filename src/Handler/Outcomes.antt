-- ===== src/Handler/Outcomes.antt =====
-- What RunNextCallback tells the network stack of a request, and how often
-- (chrome/browser/net/brave_request_handler.cc).
use mathlib.Core.List.{append-nil, append_assoc}
use chromium_adblock.Base.{
  ℕ, zero, suc, ◌<◌, ◌≡◌, refl, sym, ap, ◌∙◌, ◌==◌, String, Bool, true, false, ◌&&◌, ◌||◌, none,
  is_empty, List, [], ◌∷◌, ◌++◌, length, length-append, arith, if◌then◌else◌,
}
use chromium_adblock.Web.{Gurl}
use chromium_adblock.Delegate.Types.{
  RequestInfo, BlockedBy, other_blocked, should_mock_request, is_ad_blocked,
}
use chromium_adblock.Handler.Types.{
  NetError, ok, io_pending, blocked_by_client, failed, EventType, Context, Callback, Handler, armed,
  absent, Posted, completes, on_url_request_destroyed, run_callback_for_request_identifier,
}
use chromium_adblock.Handler.Loop.{ChainEnd, waits, returns, out_of_bounds, out_of_fuel, run_event}
use chromium_adblock.Handler.Events.{run_next_callback, verdict_of, after_chain, is_before_request}
use chromium_adblock.Handler.Chain.{callbacks_of, run_event-cases, Good, run_rest, run_rest-Good}

abbrev pub is_client_blocked : NetError → Bool
is_client_blocked blocked_by_client = true
is_client_blocked _ = false

abbrev pub is_other_blocked : BlockedBy → Bool
is_other_blocked other_blocked = true
is_other_blocked _ = false

-- What a chain that has ended posts for a request.
abbrev pub posted_for : (String → Gurl) → ℕ → ChainEnd → List Posted
posted_for parse id (waits left) = []
posted_for parse id (returns ok left) = completes id (verdict_of parse left) ∷ []
posted_for parse id (returns io_pending left) = completes id io_pending ∷ []
posted_for parse id (returns blocked_by_client left) = completes id blocked_by_client ∷ []
posted_for parse id (returns (failed code) left) = completes id (failed code) ∷ []
posted_for parse id out_of_bounds = []
posted_for parse id out_of_fuel = []

module _ (parse : String → Gurl) where
  -- A finished event reports ERR_BLOCKED_BY_CLIENT exactly for a request that is blocked before it
  -- is sent and has no stand-in: blocked for another reason, or by the engines without a mock.
  pub verdict_of_blocked :
      (ctx : Context)
      → is_client_blocked (verdict_of parse ctx) ≡ (
          is_before_request ctx.event_type
          && (is_other_blocked ctx.info.blocked_by
              || (is_ad_blocked ctx.info.blocked_by && is_empty ctx.info.mock_data_url)))
  unfolding verdict_of should_mock_request
  verdict_of_blocked ctx = ground arith

  pub posted-run_callback_for_request_identifier :
      (h : Handler) (id key : ℕ) (rv : NetError)
      → key ≡ id
      → h.callbacks id ≡ armed
      → (run_callback_for_request_identifier h key rv).posted ≡ h.posted ++ completes id rv ∷ []
  unfolding run_callback_for_request_identifier
  posted-run_callback_for_request_identifier h id key rv same here = rw (same, here)

  after_chain-posted :
      (h : Handler) (ctx : Context) (rest : List Callback) (end : ChainEnd)
      → Good rest ctx end
      → h.callbacks ctx.request_identifier ≡ armed
      → (after_chain parse h ctx end).0.posted
        ≡ h.posted ++ posted_for parse ctx.request_identifier end
  after_chain-posted h ctx rest (waits left) good here = sym (append-nil h.posted)
  after_chain-posted h ctx rest (returns ok left) (id, event) here =
      posted-run_callback_for_request_identifier h ctx.request_identifier left.request_identifier
        (verdict_of parse left) id here
  after_chain-posted h ctx rest (returns io_pending left) (id, event) here =
      posted-run_callback_for_request_identifier h ctx.request_identifier left.request_identifier
        io_pending id here
  after_chain-posted h ctx rest (returns blocked_by_client left) (id, event) here =
      posted-run_callback_for_request_identifier h ctx.request_identifier left.request_identifier
        blocked_by_client id here
  after_chain-posted h ctx rest (returns (failed code) left) (id, event) here =
      posted-run_callback_for_request_identifier h ctx.request_identifier left.request_identifier
        (failed code) id here
  after_chain-posted h ctx rest out_of_bounds good here = absurd good
  after_chain-posted h ctx rest out_of_fuel good here = absurd good

  -- An event in the middle of its chain.
  module _ (h : Handler) (before rest : List Callback) (event : EventType)
      (split : callbacks_of h event ≡ before ++ rest) where
    run_event-run_rest :
        (ctx : Context)
        → ctx.event_type ≡ event
        → ctx.next_url_request_index ≡ length before
        → run_event h ctx.event_type ctx ≡ run_rest rest ctx
    run_event-run_rest ctx ev e =
        ap (λ named. run_event h named ctx) ev ∙ run_event-cases h before rest event split ctx e

    pub run_next_callback-after_chain :
        (ctx : Context)
        → ctx.event_type ≡ event
        → ctx.pending_error ≡ none
        → ctx.next_url_request_index ≡ length before
        → h.callbacks ctx.request_identifier ≡ armed
        → run_next_callback parse h ctx ≡ after_chain parse h ctx (run_rest rest ctx)
    unfolding run_next_callback
    run_next_callback-after_chain ctx ev pe ix ar = simp (ar, pe, run_event-run_rest ctx ev ix) refl

    -- RunNextCallback on an event whose completion callback is armed and that has no
    -- pending error runs the callbacks that are left, and posts nothing if one of them answers
    -- later. It posts one completion if one fails, with its error, or if all are done, with the
    -- verdict on the request. It never runs a completion callback that has been moved out.
    pub run_next_callback_posts :
        (ctx : Context)
        → ctx.event_type ≡ event
        → ctx.pending_error ≡ none
        → ctx.next_url_request_index ≡ length before
        → h.callbacks ctx.request_identifier ≡ armed
        → (run_next_callback parse h ctx).0.posted
          ≡ h.posted ++ posted_for parse ctx.request_identifier (run_rest rest ctx)
    unfolding run_next_callback
    run_next_callback_posts ctx ev pe ix ar =
        simp (ar, pe, run_event-run_rest ctx ev ix)
          (after_chain-posted h ctx rest (run_rest rest ctx) (run_rest-Good rest ctx) ar)

  abbrev resume : (Context → Handler × Context) → Handler × Context → ChainEnd → Handler × Context
  resume again finished (waits left) = again left
  resume again finished (returns rv left) = finished
  resume again finished out_of_bounds = finished
  resume again finished out_of_fuel = finished

  -- Each callback that answers later changes what it has been given of the request by `reply`, of
  -- its place, and runs RunNextCallback again.
  unfoldable pub run_with_replies :
      ℕ → (ℕ → RequestInfo → RequestInfo) → Handler → Context → Handler × Context
  run_with_replies zero reply h ctx = (h, ctx)
  run_with_replies (suc rounds) reply h ctx =
      resume
        (λ left.
          run_with_replies rounds reply h
            (record left { info = reply left.next_url_request_index left.info }))
        (run_next_callback parse h ctx) (run_event h ctx.event_type ctx)

  -- The request of `id` has been told one more result than `h` has posted.
  abbrev Told : Handler → ℕ → Handler × Context → Type 0
  Told h id after = (rv : NetError) × (after.0.posted ≡ h.posted ++ completes id rv ∷ [])

  resume-Told :
      (h : Handler) (ctx : Context) (rest : List Callback) (again : Context → Handler × Context)
      → (finished : Handler × Context) (end : ChainEnd) → Good rest ctx end
      → ((left : Context) → Good rest ctx (waits left) → Told h ctx.request_identifier (again left))
      → finished.0.posted ≡ h.posted ++ posted_for parse ctx.request_identifier end
      → Told h ctx.request_identifier (resume again finished end)
  resume-Told h ctx rest again finished (waits left) good later e = later left good
  resume-Told h ctx rest again finished (returns ok left) good later e = (verdict_of parse left, e)
  resume-Told h ctx rest again finished (returns io_pending left) good later e = (io_pending, e)
  resume-Told h ctx rest again finished (returns blocked_by_client left) good later e =
      (blocked_by_client, e)
  resume-Told h ctx rest again finished (returns (failed code) left) good later e = (failed code, e)
  resume-Told h ctx rest again finished out_of_bounds good later e = absurd good
  resume-Told h ctx rest again finished out_of_fuel good later e = absurd good

  -- An event in the middle of its callbacks, with its completion callback armed and
  -- no pending error, is told exactly one result, if each callback that answers later does answer,
  -- whatever that reply changes of the request. It takes at most one round more than there are
  -- callbacks left.
  pub run_with_replies_completes_once :
      (rounds : ℕ) (reply : ℕ → RequestInfo → RequestInfo) (h : Handler) (ctx : Context)
      → (before rest : List Callback) (event : EventType) → callbacks_of h event ≡ before ++ rest
      → ctx.next_url_request_index ≡ length before
      → ctx.event_type ≡ event
      → ctx.pending_error ≡ none
      → h.callbacks ctx.request_identifier ≡ armed
      → length rest < rounds
      → (rv : NetError) × ((run_with_replies rounds reply h ctx).0.posted
          ≡ h.posted ++ completes ctx.request_identifier rv ∷ [])
  unfolding run_with_replies
  run_with_replies_completes_once zero reply h ctx before rest event split ix ev pe ar lt =
      elim lt [ ]
  run_with_replies_completes_once (suc rounds) reply h ctx before rest event split ix ev pe ar lt =
      rw (run_event-run_rest h before rest event split ctx ev ix) (
        resume-Told h ctx rest _ _ (run_rest rest ctx) (run_rest-Good rest ctx)
          (λ left (ran, later, parts, shorter, index, id, same_event, error).
            let (rv, told) =
              run_with_replies_completes_once rounds reply h
                (record left { info = reply left.next_url_request_index left.info }) (before ++ ran)
                later event
                (split ∙ ap (λ cs. before ++ cs) parts ∙ sym (append_assoc before ran later))
                (omega (arith, length-append before ran)) (same_event ∙ ev) (error ∙ pe)
                (ap h.callbacks id ∙ ar) (omega arith) in
            (rv, told ∙ ap (λ key. h.posted ++ completes key rv ∷ []) id))
          (run_next_callback_posts h before rest event split ctx ev pe ix ar))

  -- A reply that comes after the request has been destroyed does nothing, whatever it says, and
  -- the completion callbacks of the other requests are as they were.
  pub on_url_request_destroyed-run_next_callback :
      (h : Handler) (gone late : Context)
      → late.request_identifier ≡ gone.request_identifier
      → (run_next_callback parse (on_url_request_destroyed h gone) late
          ≡ (on_url_request_destroyed h gone, late))
        × ((other : ℕ)
            → (on_url_request_destroyed h gone).callbacks other
              ≡ (if gone.request_identifier == other then absent else h.callbacks other))
  unfolding run_next_callback on_url_request_destroyed
  on_url_request_destroyed-run_next_callback h gone late e = (ground arith, λ other. refl)
