-- ===== src/Socket/Examples.antt =====
-- The properties of the web socket at concrete inputs.
use chromium_adblock.Base.{◌+◌, ◌≤◌, ◌≡◌, refl, false, [], ◌∷◌}
use chromium_adblock.Delegate.Types.{ad_blocked}
use chromium_adblock.Handler.Types.{ok, Context}
use chromium_adblock.Handler.Events.{verdict_of}
use chromium_adblock.Loader.Examples.{net, script_load, blocking, asking}
use chromium_adblock.Loader.Waiting.{start_ctx}
use chromium_adblock.Socket.Types.{ProxyingWebSocket}
use chromium_adblock.Socket.Steps.{on_before_request_complete}
use chromium_adblock.Socket.Events.{
  runs_factory, starts_handshake, completes_event, disconnects, run_socket, new_socket,
}
use chromium_adblock.Socket.Once.{opened}
use chromium_adblock.Socket.Runs.{run_socket_opens_once}
use chromium_adblock.Socket.Outcomes.{on_before_request_complete_opens}

run_socket_opens_once_example :
    opened
      (run_socket net
        (runs_factory false [] ∷ completes_event 0 ok ∷ starts_handshake ∷ disconnects 0 "" ∷ [])
        (new_socket net blocking 3 script_load)).effects
    ≤ 1
run_socket_opens_once_example =
    run_socket_opens_once net
      (runs_factory false [] ∷ completes_event 0 ok ∷ starts_handshake ∷ disconnects 0 "" ∷ [])
      blocking 3 script_load

-- A request that the engines block with a stand-in.
abbrev mocked : Context
mocked = record (start_ctx net asking) {
  info = record (start_ctx net asking).info { blocked_by = ad_blocked; mock_data_url = "data:," };
}

abbrev socket : ProxyingWebSocket
socket = new_socket net blocking 3 script_load

on_before_request_complete_opens_example :
    opened (on_before_request_complete net (verdict_of net.parse mocked) socket).effects ≡ 0 + 1
unfolding new_socket
on_before_request_complete_opens_example =
    on_before_request_complete_opens net mocked socket refl refl
