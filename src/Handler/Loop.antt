-- ===== src/Handler/Loop.antt =====
-- The loops of RunNextCallback (chrome/browser/net/brave_request_handler.{h,cc}).
use chromium_adblock.Base.{ℕ, zero, suc, ◌==◌, none, some, List, length, get_elem?, if◌then◌else◌}
use chromium_adblock.Delegate.Types.{RequestInfo}
use chromium_adblock.Handler.Types.{
  NetError, ok, io_pending, blocked_by_client, failed, EventType, on_before_request,
  on_before_start_transaction, on_headers_received, Context, Callback, Handler,
}

-- How a loop over callbacks ends.
pub data ChainEnd : Type 0 where
  -- a callback answers later
  waits : Context → ChainEnd
  -- all are done, or one has returned an error
  returns : NetError → Context → ChainEnd
  out_of_bounds out_of_fuel : ChainEnd

-- The index is moved on before the callback is run.
abbrev pub leave : Context → RequestInfo → Context
leave ctx info = record ctx { info = info; next_url_request_index = suc ctx.next_url_request_index }

abbrev pub after_callback : (Context → ChainEnd) → Context → NetError × RequestInfo → ChainEnd
after_callback continue_with ctx (ok, info) = continue_with (leave ctx info)
after_callback continue_with ctx (io_pending, info) = waits (leave ctx info)
after_callback continue_with ctx (blocked_by_client, info) =
    returns blocked_by_client (leave ctx info)
after_callback continue_with ctx (failed code, info) = returns (failed code) (leave ctx info)

-- `while (callbacks.size() != ctx->next_url_request_index())`.
unfoldable pub run_chain : ℕ → List Callback → Context → ChainEnd
run_chain zero callbacks ctx = out_of_fuel
run_chain (suc fuel) callbacks ctx =
    if length callbacks == ctx.next_url_request_index
    then returns ok ctx
    else elim (get_elem? callbacks ctx.next_url_request_index) [
      | none ↦ out_of_bounds
      | some callback ↦ after_callback (run_chain fuel callbacks) ctx (callback ctx.info)
    ]

-- The loop of the event; other events have none. One round for each callback, and one to see the
-- end.
unfoldable pub run_event : Handler → EventType → Context → ChainEnd
run_event h on_before_request ctx =
    run_chain (suc (length h.before_url_request_callbacks)) h.before_url_request_callbacks ctx
run_event h on_before_start_transaction ctx =
    run_chain (suc (length h.before_start_transaction_callbacks))
      h.before_start_transaction_callbacks ctx
run_event h on_headers_received ctx =
    run_chain (suc (length h.headers_received_callbacks)) h.headers_received_callbacks ctx
run_event h _ ctx = returns ok ctx
