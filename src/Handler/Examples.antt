-- ===== src/Handler/Examples.antt =====
-- The properties of the request handler at concrete inputs.
use chromium_adblock.Base.{arith, ◌≡◌, refl, none, [], ◌∷◌}
use chromium_adblock.Wrapper.Examples.{https_url}
use chromium_adblock.Delegate.Types.{other_blocked}
use chromium_adblock.Delegate.Examples.{request}
use chromium_adblock.Handler.Types.{
  NetError, ok, io_pending, EventType, Context, Callback, Handler, armed, completes,
  on_url_request_destroyed,
}
use chromium_adblock.Handler.Loop.{returns, run_chain}
use chromium_adblock.Handler.Events.{run_next_callback}
use chromium_adblock.Handler.Chain.{run_rest, run_chain-run_rest}
use chromium_adblock.Handler.Outcomes.{
  run_with_replies, run_with_replies_completes_once, on_url_request_destroyed-run_next_callback,
}

-- A callback that looks at the request, one that answers later, and one that blocks.
abbrev look : Callback
look info = (ok, info)

abbrev later : Callback
later info = (io_pending, info)

abbrev pub block : Callback
block info = (ok, record info { blocked_by = other_blocked })

abbrev handler : Handler
handler = record {
  before_url_request_callbacks = look ∷ later ∷ block ∷ [];
  before_start_transaction_callbacks = [];
  headers_received_callbacks = [];
  callbacks = λ id. armed;
  posted = [];
}

abbrev context : Context
context = record {
  info = request;
  request_identifier = 7;
  next_url_request_index = 0;
  pending_error = none;
  event_type = EventType.on_before_request;
  new_url = none;
}

-- The context after the callback that answers later.
abbrev at_block : Context
at_block = record context { next_url_request_index = 2 }

run_chain-run_rest_example :
    run_chain 4 (look ∷ later ∷ block ∷ []) at_block
    ≡ returns ok (record at_block {
      info = record request { blocked_by = other_blocked };
      next_url_request_index = 3;
    })
unfolding run_rest
run_chain-run_rest_example =
    run_chain-run_rest (block ∷ []) (look ∷ later ∷ []) 4 at_block (omega arith) refl

run_with_replies_completes_once_example :
    (rv : NetError) × ((run_with_replies https_url 4 (λ i info. info) handler context).0.posted
      ≡ completes 7 rv ∷ [])
run_with_replies_completes_once_example =
    run_with_replies_completes_once https_url 4 (λ i info. info) handler context []
      (look ∷ later ∷ block ∷ []) EventType.on_before_request refl refl refl refl refl (omega arith)

on_url_request_destroyed-run_next_callback_example :
    run_next_callback https_url (on_url_request_destroyed handler context) at_block
    ≡ (on_url_request_destroyed handler context, at_block)
on_url_request_destroyed-run_next_callback_example =
    (on_url_request_destroyed-run_next_callback https_url handler context at_block refl).0
