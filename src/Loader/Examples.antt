-- ===== src/Loader/Examples.antt =====
-- The properties of the proxying factory at concrete inputs.
use chromium_adblock.Base.{String, true, false, ◌≡◌, refl, ◌++◌, none, some, List, [], ◌∷◌}
use chromium_adblock.Web.{script}
use chromium_adblock.Wrapper.Examples.{https_url}
use chromium_adblock.Delegate.Types.{ad_blocked, RequestInfo, should_mock_request}
use chromium_adblock.Handler.Types.{
  ok, io_pending, blocked_by_client, Callback, setup_callbacks, Handler, absent,
}
use chromium_adblock.Handler.Events.{is_internal_scheme}
use chromium_adblock.Handler.Examples.{block}
use chromium_adblock.Context.{Origin, OriginApi, ResourceRequest, Ctx, make_ctx, empty_gurl}
use chromium_adblock.Loader.Types.{completed, InProgressRequest, Net, created_loader}
use chromium_adblock.Loader.Before.{restart, continue_to_before_send_headers, stub_for}
use chromium_adblock.Loader.Response.{status_for}
use chromium_adblock.Loader.Events.{
  Event, continues, to_before_send_headers, completes_load, client_disconnects, writes, new_request,
  run, deliver, replies,
}
use chromium_adblock.Loader.Protocol.{Conforms, view}
use chromium_adblock.Loader.Conformance.{run_conforms}
use chromium_adblock.Loader.Waiting.{start_ctx, fresh_ctx}
use chromium_adblock.Loader.Outcomes.{reply_by, completions_in, restart_blocks}
use chromium_adblock.Loader.Sends.{
  continue_to_before_send_headers_sends, continue_to_before_send_headers_mocks,
}
use chromium_adblock.Loader.Factory.{
  new_factory, create_loader_and_start, target_factory_error, request_event, run_calls,
}
use chromium_adblock.Loader.Lifetime.{IsLive, run_calls-IsLive}

abbrev origin : String → Origin
origin host = record { get_url = https_url host }

abbrev origins : OriginApi
origins = record {
  opaque = record { get_url = empty_gurl };
  create = λ url. record { get_url = url };
  is_same_origin_with = λ a b. true;
}

abbrev pub net : Net
net = record {
  extensions = true;
  weak_ctx = true;
  collapse_blocked_elements = true;
  has_browser_context = true;
  committed = some (https_url "page.test");
  pipe = some 7;
  parse = https_url;
  origins = origins;
  parse_data_url = λ url. none;
  split_accept = λ accept. accept ∷ [];
  get_header = λ headers name. some "image/png";
  set_header = λ headers name value. (name, value) ∷ headers;
  remove_header = λ headers name. headers;
  merge_from = λ headers more. headers ++ more;
  assemble_raw_headers = λ raw. record { raw = raw };
  is_redirect = λ headers. none;
  response_code = λ headers. 200;
  get_referrer_policy_header = λ headers. none;
  populate_parsed_headers = λ headers url. headers.raw;
  compute_redirect_info = λ request update code url policy. record {
    new_url = url;
    new_method = request.method;
    new_site_for_cookies = request.site_for_cookies;
    new_referrer = "";
    new_referrer_policy = 0;
  };
  create_for_redirect = λ top to. some to;
  client_disconnect_reason = 1;
  follow_redirect_reason = "follow";
}

abbrev pub script_load : ResourceRequest
script_load = record {
  url = https_url "cdn.test";
  method = "GET";
  headers = [];
  referrer = empty_gurl;
  referrer_policy = 0;
  site_for_cookies = empty_gurl;
  request_initiator = some (origin "page.test");
  request_body = none;
  resource_type = script;
  trusted_params = none;
  devtools_request_id = none;
  update_first_party_url_on_redirect = false;
  is_outermost_main_frame = false;
}

abbrev pub blocking : Handler
blocking = record {
  before_url_request_callbacks = block ∷ [];
  before_start_transaction_callbacks = [];
  headers_received_callbacks = [];
  callbacks = λ id. absent;
  posted = [];
}

abbrev pub asking : InProgressRequest
asking = new_request net blocking true 3 script_load

abbrev events : List Event
events =
    continues to_before_send_headers ok
    ∷ client_disconnects
    ∷ completes_load (status_for (stub_for net script_load (fresh_ctx net asking)).1)
    ∷ []

run_conforms_example :
    let told = (run_conforms net events asking).0 in
    Conforms (view asking) events told (view (run net events asking))
run_conforms_example = (run_conforms net events asking).2

-- The handler as it is set up, for a request that the engines are asked about and block.
abbrev wait_for_engines : Callback
wait_for_engines info = (io_pending, info)

abbrev block_ad : RequestInfo → RequestInfo
block_ad info = record info { blocked_by = ad_blocked }

abbrev from_page : InProgressRequest
unfolding setup_callbacks new_request
from_page =
    new_request net (setup_callbacks wait_for_engines wait_for_engines true) true 3 script_load

restart_blocks_example :
    let after_reply =
      deliver net (replies (reply_by net from_page block_ad)) (restart net from_page) in
    (run net (completions_in net from_page after_reply.handler.posted) after_reply).effects
    ≡ completed (record {
      error_code = blocked_by_client;
      should_collapse_initiator = true;
      encoded_data_length = 0;
      encoded_body_length = 0;
      decoded_body_length = 0;
    })
      ∷ []
unfolding is_internal_scheme make_ctx from_page
restart_blocks_example =
    (restart_blocks net from_page wait_for_engines (start_ctx net from_page).info block_ad refl refl
      refl refl refl refl refl).2

-- A request whose callbacks have let it go on, and one with a stand-in.
abbrev free : Ctx
unfolding make_ctx new_request
free = record (fresh_ctx net asking) { new_referrer = some (https_url "stripped.test") }

abbrev mocked : Ctx
unfolding make_ctx new_request
mocked = record (fresh_ctx net asking) {
  context = record (start_ctx net asking) {
    info = record (start_ctx net asking).info { blocked_by = ad_blocked; mock_data_url = "data:," };
  };
}

continue_to_before_send_headers_sends_example :
    (continue_to_before_send_headers net ok (record asking { ctx = some free })).effects
    ≡ created_loader (record script_load { referrer = https_url "stripped.test" }) ∷ []
unfolding free make_ctx new_request
continue_to_before_send_headers_sends_example =
    (continue_to_before_send_headers_sends net free asking refl refl refl refl refl refl).0

continue_to_before_send_headers_mocks_example :
    (run net
      (continues to_before_send_headers ok ∷ writes true ∷ [])
      (record asking { ctx = some mocked })).removed
    ≡ true
unfolding mocked make_ctx new_request should_mock_request
continue_to_before_send_headers_mocks_example =
    (continue_to_before_send_headers_mocks net mocked asking 7 refl refl refl refl refl).1

run_calls-IsLive_example : IsLive (
    run_calls net
      (create_loader_and_start script_load
        ∷ target_factory_error
        ∷ request_event 0 client_disconnects
        ∷ [])
      (new_factory blocking 0))
unfolding new_factory
run_calls-IsLive_example =
    run_calls-IsLive net
      (create_loader_and_start script_load
        ∷ target_factory_error
        ∷ request_event 0 client_disconnects
        ∷ [])
      (new_factory blocking 0) (record { ends = refl; held = tt; let_go = tt })
