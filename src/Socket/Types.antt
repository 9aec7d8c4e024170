-- ===== src/Socket/Types.antt =====
-- The state of a BraveProxyingWebSocket and what it does to the outside
-- (chrome/browser/net/brave_proxying_web_socket.{h,cc}).
use chromium_adblock.Base.{ℕ, String, Bool, Option, List, [], ◌∷◌, ◌++◌}
use chromium_adblock.Web.{Gurl}
use chromium_adblock.Context.{Ctx, ResourceRequest}
use chromium_adblock.Stub.{ResponseHeaders}
use chromium_adblock.Handler.Types.{NetError, failed, Handler}
use chromium_adblock.Loader.Types.{Receiver}

abbrev pub err_failed : NetError
err_failed = failed 2

-- kEmptyDataURI.
abbrev pub empty_data_uri : String
empty_data_uri = "data:text/plain,"

abbrev pub Headers : Type 0
Headers = List (String × String)

-- The functions that a completion callback may be bound to.
pub data SocketContinuation : Type 0 where
  to_start_request to_before_request_complete to_before_send_headers_complete : SocketContinuation
  to_headers_received_complete : SocketContinuation

-- What the socket says: to the client, to the network, to the proxy that has been given to it
-- (`proxy_trusted_header_client_`), and to the callbacks that the network has handed it.
pub data SocketEffect : Type 0 where
  opening_handshake_started connection_established : SocketEffect
  client_reset_with_reason : ℕ → String → SocketEffect
  auth_required : SocketEffect
  created_socket : Gurl → Headers → SocketEffect
  asked_before_send_headers : Headers → SocketEffect
  asked_headers_received : String → SocketEffect
  answered_before_send_headers : NetError → Option Headers → SocketEffect
  answered_headers_received : NetError → Option String → SocketEffect

-- `awaiting` holds the completion callbacks that the handler has and has not run;
-- `removed` says that the socket has been deleted.
pub record ProxyingWebSocket : Type 0 where
  pub handler : Handler
  pub request_id : ℕ
  pub request : ResourceRequest
  pub ctx : Option Ctx
  pub redirect_url : Gurl
  -- proxy_has_extra_headers
  pub extra_headers : Bool
  pub forwarding_handshake_client_bound : Bool
  pub handshake_client : Receiver
  pub header_client : Receiver
  pub has_before_send_headers_callback : Bool
  pub has_headers_received_callback : Bool
  pub response_headers : Option ResponseHeaders
  pub override_headers : Option ResponseHeaders
  pub is_done : Bool
  pub removed : Bool
  pub awaiting : List SocketContinuation
  pub effects : List SocketEffect

abbrev pub tell_socket : SocketEffect → ProxyingWebSocket → ProxyingWebSocket
tell_socket e s = record s { effects = s.effects ++ e ∷ [] }
