-- ===== src/Handler/Types.antt =====
-- The state of BraveRequestHandler (chrome/browser/net/brave_request_handler.{h,cc}):
-- its chains of callbacks and the completion callbacks of the requests under way.
-- A callback is a function from what it sees of the request to its return value and what it leaves;
-- one that answers later returns `io_pending` and has RunNextCallback run again.
use chromium_adblock.Base.{ℕ, Bool, true, false, ◌==◌, Option, List, [], ◌∷◌, ◌++◌, if◌then◌else◌}
use chromium_adblock.Web.{Gurl}
use chromium_adblock.Delegate.Types.{RequestInfo}

-- The net error codes that the handler names, and any other.
pub data NetError : Type 0 where
  ok io_pending blocked_by_client : NetError
  failed : ℕ → NetError

pub data EventType : Type 0 where
  on_before_request on_before_start_transaction on_headers_received : EventType
  on_can_get_cookies on_can_set_cookies unknown_event_type : EventType

-- What the handler sees of a BraveRequestInfo. `new_url` is the GURL that the caller passed to be
-- overwritten.
pub record Context : Type 0 where
  pub info : RequestInfo
  pub request_identifier : ℕ
  pub next_url_request_index : ℕ
  pub pending_error : Option NetError
  pub event_type : EventType
  pub new_url : Option Gurl

abbrev pub Callback : Type 0
Callback = RequestInfo → NetError × RequestInfo

-- A completion callback: none for this request, one to be run, or one that has been moved out.
pub data Completion : Type 0 where
  absent armed moved : Completion

-- A task on the UI thread that runs a completion callback; `null_callback` is the run of one that
-- has been moved out before, and `no_callback` the use of an iterator at the end of the map.
pub data Posted : Type 0 where
  completes : ℕ → NetError → Posted
  null_callback no_callback : Posted

pub record Handler : Type 0 where
  pub before_url_request_callbacks : List Callback
  pub before_start_transaction_callbacks : List Callback
  pub headers_received_callbacks : List Callback
  pub callbacks : ℕ → Completion
  pub posted : List Posted

-- SetupCallbacks, with the callbacks of the two helpers.
unfoldable pub setup_callbacks : Callback → Callback → Bool → Handler
setup_callbacks ad_block_tp ad_block_csp csp_rules = record {
  before_url_request_callbacks = ad_block_tp ∷ [];
  before_start_transaction_callbacks = [];
  headers_received_callbacks = if csp_rules then ad_block_csp ∷ [] else [];
  callbacks = λ id. absent;
  posted = [];
}

abbrev pub set_completion : (ℕ → Completion) → ℕ → Completion → ℕ → Completion
set_completion f id c other = if id == other then c else f other

abbrev pub is_present : Completion → Bool
is_present absent = false
is_present armed = true
is_present moved = true

unfoldable pub is_request_identifier_valid : Handler → ℕ → Bool
is_request_identifier_valid h id = is_present (h.callbacks id)

abbrev post : ℕ → NetError → Completion → Posted
post id rv absent = no_callback
post id rv armed = completes id rv
post id rv moved = null_callback

-- The callback is moved out of the map, and its entry stays.
unfoldable pub run_callback_for_request_identifier : Handler → ℕ → NetError → Handler
run_callback_for_request_identifier h id rv = record h {
  callbacks =
      if is_present (h.callbacks id) then set_completion h.callbacks id moved else h.callbacks;
  posted = h.posted ++ post id rv (h.callbacks id) ∷ [];
}

unfoldable pub on_url_request_destroyed : Handler → Context → Handler
on_url_request_destroyed h ctx = record h {
  callbacks = set_completion h.callbacks ctx.request_identifier absent;
}
