-- ===== src/Handler/Chain.antt =====
-- The loops of RunNextCallback against the list of the callbacks that are left
-- (chrome/browser/net/brave_request_handler.cc).
use mathlib.Core.List.{append_assoc}
use chromium_adblock.Base.{
  ℕ, zero, suc, ◌+◌, ◌<◌, ◌≡◌, refl, sym, ap, subst, ◌∙◌, ◌==◌, false, some, List, [], ◌∷◌, ◌++◌,
  length, length-append, get_elem?, arith,
}
use chromium_adblock.Delegate.Types.{RequestInfo}
use chromium_adblock.Handler.Types.{
  EventType, Handler, NetError, ok, io_pending, blocked_by_client, failed, Context, Callback,
}
use chromium_adblock.Handler.Loop.{
  run_event, ChainEnd, waits, returns, out_of_bounds, out_of_fuel, leave, after_callback, run_chain,
}

-- The callbacks that are left, run one after the other over what the one before leaves of the
-- request: the end is the first that waits or returns an error, at its place, or OK after the last.
unfoldable pub run_rest : List Callback → Context → ChainEnd
run_rest [] ctx = returns ok ctx
run_rest (callback ∷ rest) ctx =
    let (rv, info) = callback ctx.info in
    let passed = record ctx {
      info = info;
      next_url_request_index = suc ctx.next_url_request_index;
    } in
    let later = run_rest rest passed in
    elim rv [
      | ok ↦ later
      | io_pending ↦ waits passed
      | blocked_by_client ↦ returns blocked_by_client passed
      | failed code ↦ returns (failed code) passed
    ]

pub run_rest-after_callback :
    (callback : Callback) (rest : List Callback) (ctx : Context)
    → run_rest (callback ∷ rest) ctx ≡ after_callback (run_rest rest) ctx (callback ctx.info)
unfolding run_rest
run_rest-after_callback callback rest ctx = by_result (callback ctx.info)
  where
    by_result :
        (result : NetError × RequestInfo)
        → (elim result.0 [
          | ok ↦ run_rest rest (leave ctx result.1)
          | io_pending ↦ waits (leave ctx result.1)
          | blocked_by_client ↦ returns blocked_by_client (leave ctx result.1)
          | failed code ↦ returns (failed code) (leave ctx result.1)
        ])
          ≡ after_callback (run_rest rest) ctx result
    by_result (ok, info) = refl
    by_result (io_pending, info) = refl
    by_result (blocked_by_client, info) = refl
    by_result (failed code, info) = refl

get_elem?-append :
    (before rest : List Callback) (callback : Callback)
    → get_elem? (before ++ callback ∷ rest) (length before) ≡ some callback
get_elem?-append [] rest callback = refl
get_elem?-append (b ∷ before) rest callback = get_elem?-append before rest callback

run_chain-step :
    (fuel : ℕ) (callbacks : List Callback) (callback : Callback) (ctx : Context)
    → (length callbacks == ctx.next_url_request_index) ≡ false
    → get_elem? callbacks ctx.next_url_request_index ≡ some callback
    → run_chain (suc fuel) callbacks ctx
      ≡ after_callback (run_chain fuel callbacks) ctx (callback ctx.info)
unfolding run_chain
run_chain-step fuel callbacks callback ctx more here = rw (more, here)

after_callback-agree :
    (f g : Context → ChainEnd) (ctx : Context) (result : NetError × RequestInfo)
    → ((info : RequestInfo) → f (leave ctx info) ≡ g (leave ctx info))
    → after_callback f ctx result ≡ after_callback g ctx result
after_callback-agree f g ctx (ok, info) same = same info
after_callback-agree f g ctx (io_pending, info) same = refl
after_callback-agree f g ctx (blocked_by_client, info) same = refl
after_callback-agree f g ctx (failed code, info) same = refl

-- A loop that starts where `before` ends runs the callbacks of `rest`, each once and in order, and
-- stops at the first that waits or fails: with a round for each and one more it neither runs out
-- of rounds nor reads past the end.
pub run_chain-run_rest :
    (rest before : List Callback) (fuel : ℕ) (ctx : Context)
    → length rest < fuel
    → ctx.next_url_request_index ≡ length before
    → run_chain fuel (before ++ rest) ctx ≡ run_rest rest ctx
unfolding run_rest
run_chain-run_rest rest before zero ctx h e = elim h [ ]
run_chain-run_rest [] before (suc fuel) ctx h e =
    unfold run_chain in ground (arith, length-append before [])
run_chain-run_rest (c ∷ rest) before (suc fuel) ctx h e =
    run_chain-step fuel (before ++ c ∷ rest) c ctx (ground (arith, length-append before (c ∷ rest)))
      (ap (get_elem? (before ++ c ∷ rest)) e ∙ get_elem?-append before rest c)
    ∙ after_callback-agree (run_chain fuel (before ++ c ∷ rest)) (run_rest rest) ctx (c ctx.info)
        (λ info.
          ap (λ callbacks. run_chain fuel callbacks (leave ctx info))
            (sym (append_assoc before (c ∷ []) rest))
          ∙ run_chain-run_rest rest (before ++ c ∷ []) fuel (leave ctx info) (omega arith)
              (omega (arith, length-append before (c ∷ []))))
    ∙ sym (run_rest-after_callback c rest ctx)

-- What the end of a chain leaves as it was, and where a chain that waits stands.
abbrev pub Good : List Callback → Context → ChainEnd → Type 0
Good rest ctx (waits left) =
    (ran later : List Callback) × (rest ≡ ran ++ later)
    × (length later < length rest)
    × (left.next_url_request_index ≡ ctx.next_url_request_index + length ran)
    × (left.request_identifier ≡ ctx.request_identifier)
    × (left.event_type ≡ ctx.event_type)
    × (left.pending_error ≡ ctx.pending_error)
Good rest ctx (returns rv left) =
    (left.request_identifier ≡ ctx.request_identifier) × (left.event_type ≡ ctx.event_type)
Good rest ctx out_of_bounds = ⊥
Good rest ctx out_of_fuel = ⊥

Good-cons :
    (callback : Callback) (rest : List Callback) (ctx : Context) (info : RequestInfo) (e : ChainEnd)
    → Good rest (leave ctx info) e
    → Good (callback ∷ rest) ctx e
Good-cons callback rest ctx info (waits left)
      (ran, later, split, shorter, index, id, event, error) =
    (
      callback ∷ ran,
      later,
      ap (λ cs. callback ∷ cs) split,
      omega arith,
      omega arith,
      id,
      event,
      error,
    )
Good-cons callback rest ctx info (returns rv left) same = same
Good-cons callback rest ctx info out_of_bounds h = absurd h
Good-cons callback rest ctx info out_of_fuel h = absurd h

after_callback-Good :
    (callback : Callback) (rest : List Callback) (ctx : Context) (result : NetError × RequestInfo)
    → ((info : RequestInfo) → Good rest (leave ctx info) (run_rest rest (leave ctx info)))
    → Good (callback ∷ rest) ctx (after_callback (run_rest rest) ctx result)
after_callback-Good callback rest ctx (ok, info) ih =
    Good-cons callback rest ctx info (run_rest rest (leave ctx info)) (ih info)
after_callback-Good callback rest ctx (io_pending, info) ih =
    (callback ∷ [], rest, refl, omega arith, omega arith, refl, refl, refl)
after_callback-Good callback rest ctx (blocked_by_client, info) ih = (refl, refl)
after_callback-Good callback rest ctx (failed code, info) ih = (refl, refl)

pub run_rest-Good : (rest : List Callback) (ctx : Context) → Good rest ctx (run_rest rest ctx)
unfolding run_rest
run_rest-Good [] ctx = (refl, refl)
run_rest-Good (callback ∷ rest) ctx =
    subst (Good (callback ∷ rest) ctx) (sym (run_rest-after_callback callback rest ctx)) (
      after_callback-Good callback rest ctx (callback ctx.info)
        (λ info. run_rest-Good rest (leave ctx info)))

-- The chain of an event; for the last three there is none.
abbrev pub callbacks_of : Handler → EventType → List Callback
callbacks_of h EventType.on_before_request = h.before_url_request_callbacks
callbacks_of h EventType.on_before_start_transaction = h.before_start_transaction_callbacks
callbacks_of h EventType.on_headers_received = h.headers_received_callbacks
callbacks_of h EventType.on_can_get_cookies = []
callbacks_of h EventType.on_can_set_cookies = []
callbacks_of h EventType.unknown_event_type = []

chain-run_rest :
    (callbacks before rest : List Callback) (ctx : Context)
    → callbacks ≡ before ++ rest
    → ctx.next_url_request_index ≡ length before
    → run_chain (suc (length callbacks)) callbacks ctx ≡ run_rest rest ctx
chain-run_rest callbacks before rest ctx split e =
    ap (λ cs. run_chain (suc (length cs)) cs ctx) split
    ∙ run_chain-run_rest rest before (suc (length (before ++ rest))) ctx
        (omega (arith, length-append before rest)) e

no_chain-run_rest :
    (before rest : List Callback) (ctx : Context)
    → [] ≡ before ++ rest
    → returns ok ctx ≡ run_rest rest ctx
unfolding run_rest
no_chain-run_rest before [] ctx split = refl
no_chain-run_rest before (c ∷ rest) ctx split =
    absurd (omega (arith, ap length split, length-append before (c ∷ rest)))

pub run_event-cases :
    (h : Handler) (before rest : List Callback) (event : EventType)
    → callbacks_of h event ≡ before ++ rest
    → (ctx : Context) → ctx.next_url_request_index ≡ length before
    → run_event h event ctx ≡ run_rest rest ctx
unfolding run_event
run_event-cases h before rest EventType.on_before_request split ctx e =
    chain-run_rest h.before_url_request_callbacks before rest ctx split e
run_event-cases h before rest EventType.on_before_start_transaction split ctx e =
    chain-run_rest h.before_start_transaction_callbacks before rest ctx split e
run_event-cases h before rest EventType.on_headers_received split ctx e =
    chain-run_rest h.headers_received_callbacks before rest ctx split e
run_event-cases h before rest EventType.on_can_get_cookies split ctx e =
    no_chain-run_rest before rest ctx split
run_event-cases h before rest EventType.on_can_set_cookies split ctx e =
    no_chain-run_rest before rest ctx split
run_event-cases h before rest EventType.unknown_event_type split ctx e =
    no_chain-run_rest before rest ctx split
