-- ===== src/Loader/Types.antt =====
-- The state of an InProgressRequest and what it does to the outside
-- (chrome/browser/net/brave_proxying_url_loader_factory.{h,cc}).
use chromium_adblock.Base.{ℕ, String, Bool, Option, List, [], ◌∷◌, ◌++◌}
use chromium_adblock.Web.{Gurl}
use chromium_adblock.Context.{Ctx, ResourceRequest, Origin, OriginApi}
use chromium_adblock.Stub.{ResponseHead, ResponseHeaders, Content, DataUrl}
use chromium_adblock.Handler.Types.{NetError, failed, Handler}

abbrev pub err_aborted : NetError
err_aborted = failed 3

abbrev pub err_insufficient_resources : NetError
err_insufficient_resources = failed 12

-- net::RedirectInfo, for the fields that are read.
pub record RedirectInfo : Type 0 where
  pub new_url : Gurl
  pub new_method : String
  pub new_site_for_cookies : Gurl
  pub new_referrer : String
  pub new_referrer_policy : ℕ

-- network::URLLoaderCompletionStatus.
pub record CompletionStatus : Type 0 where
  pub error_code : NetError
  pub should_collapse_initiator : Bool
  pub encoded_data_length : ℕ
  pub encoded_body_length : ℕ
  pub decoded_body_length : ℕ

-- network::HttpRequestHeadersUpdateParams.
pub record HeadersUpdate : Type 0 where
  pub removed_headers : List String
  pub modified_headers : List (String × String)
  pub modified_cors_exempt_headers : List (String × String)

-- FollowRedirectParams.
pub record FollowRedirectParams : Type 0 where
  pub update : HeadersUpdate
  pub new_url : Option Gurl

-- A mojo::Receiver: not bound, bound, or bound and paused.
pub data Receiver : Type 0 where
  unbound bound paused : Receiver

-- `if (is_bound()) Pause()` and `if (is_bound()) Resume()`.
abbrev pub pause_receiver : Receiver → Receiver
pause_receiver unbound = unbound
pause_receiver bound = paused
pause_receiver paused = paused

abbrev pub resume_receiver : Receiver → Receiver
resume_receiver unbound = unbound
resume_receiver bound = bound
resume_receiver paused = bound

-- What the request says to the client that asked for it, and to the network. Handles of bodies and
-- of cached metadata are numbers.
pub data Effect : Type 0 where
  received_response : Option ResponseHead → Option ℕ → Option ℕ → Effect
  received_redirect : RedirectInfo → Option ResponseHead → Effect
  completed : CompletionStatus → Effect
  upload_progress : ℕ → ℕ → Effect
  transfer_size_updated : ℕ → Effect
  created_loader : ResourceRequest → Effect
  followed_redirect : FollowRedirectParams → Effect
  priority_set : ℕ → ℕ → Effect
  loader_reset_with_reason : ℕ → String → Effect
  -- the body of a stand-in goes into its pipe
  wrote_body : Content → Effect

-- An InProgressRequest, with the handler and the binding of `target_factory_` that it uses of its
-- factory. `removed` says that it has been deleted.
pub record InProgressRequest : Type 0 where
  pub handler : Handler
  pub target_factory_bound : Bool
  pub request_id : ℕ
  pub request : ResourceRequest
  pub ctx : Option Ctx
  pub proxied_client : Receiver
  pub target_loader_bound : Bool
  pub current_response_head : Option ResponseHead
  pub current_response_body : Option ℕ
  pub cached_metadata : Option ℕ
  pub override_headers : Option ResponseHeaders
  pub request_completed : Bool
  pub pending_follow_redirect_params : Option FollowRedirectParams
  pub removed : Bool
  -- the bodies of stand-ins that pipes are writing
  pub writing : List Content
  pub effects : List Effect

abbrev pub emit : Effect → InProgressRequest → InProgressRequest
emit e ip = record ip { effects = ip.effects ++ e ∷ [] }

-- What the class calls in other libraries, and what is fixed for a request: the build flag and the
-- features, the kind of pointer that holds the context (`weak_ctx` is base::WeakPtr), the browser
-- context, the frame's committed URL, and the pipe that CreateDataPipe gives.
pub record Net : Type 0 where
  pub extensions : Bool
  pub weak_ctx : Bool
  pub collapse_blocked_elements : Bool
  pub has_browser_context : Bool
  pub committed : Option Gurl
  pub pipe : Option ℕ
  pub parse : String → Gurl
  pub origins : OriginApi
  pub parse_data_url : String → Option DataUrl
  -- base::SplitString on the Accept header
  pub split_accept : String → List String
  pub get_header : List (String × String) → String → Option String
  pub set_header : List (String × String) → String → String → List (String × String)
  pub remove_header : List (String × String) → String → List (String × String)
  pub merge_from : List (String × String) → List (String × String) → List (String × String)
  pub assemble_raw_headers : String → ResponseHeaders
  pub is_redirect : ResponseHeaders → Option String
  pub response_code : ResponseHeaders → ℕ
  pub get_referrer_policy_header : ResponseHeaders → Option String
  pub populate_parsed_headers : ResponseHeaders → Gurl → String
  -- ComputeRedirectInfo; the flag is the policy UPDATE_URL_ON_REDIRECT
  pub compute_redirect_info : ResourceRequest → Bool → ℕ → Gurl → Option String → RedirectInfo
  -- IsolationInfo::CreateForRedirect, on the top frame's origin
  pub create_for_redirect : Option Origin → Origin → Option Origin
  -- URLLoader::kClientDisconnectReason and ThrottlingURLLoader::kFollowRedirectReason
  pub client_disconnect_reason : ℕ
  pub follow_redirect_reason : String
