-- ===== src/Csp.antt =====
-- The CSP helper of the network delegate
-- (chrome/browser/net/brave_ad_block_csp_network_delegate_helper.cc): the policy of a frame's
-- response is taken out of its headers, merged with the engines' directives and put back.
pub mod Policy
pub mod Examples
use chromium_adblock.Base.{
  String, Bool, true, false, not, ◌&&◌, ◌||◌, ◌≡◌, Option, none, some, is_empty, if◌then◌else◌,
}
use chromium_adblock.Web.{Gurl, ResourceType, main_frame, sub_frame}
use chromium_adblock.Engine.{EngineApi}
use chromium_adblock.Wrapper.{EngineWrapper, wrapper_get_csp_directives, merge_csp_directive_into}
use chromium_adblock.Delegate.Types.{RequestInfo}

-- net::HttpResponseHeaders, for the header Content-Security-Policy, and what is relied on: a
-- removed header is gone, and one that is added where there was none is the whole of it.
pub record HeaderApi (Headers : Type 0) : Type 0 where
  pub get_normalized : Headers → Option String
  pub remove : Headers → Headers
  pub add : Headers → String → Headers
  pub get-remove : (h : Headers) → get_normalized (remove h) ≡ none
  pub get-add :
      (h : Headers) (v : String) → get_normalized h ≡ none → get_normalized (add h v) ≡ some v

abbrev is_frame : ResourceType → Bool
is_frame main_frame = true
is_frame sub_frame = true
is_frame _ = false

-- The host that stands for the source of the request.
abbrev pub source_host_of : Gurl → Gurl → Option String
source_host_of initiator_url request_url =
    if initiator_url.is_valid && not (is_empty initiator_url.host)
    then some initiator_url.host
    else if request_url.is_valid
    then some request_url.host
    else none

-- What OnHeadersReceived_AdBlockCspWork returns: net::OK, or ERR_IO_PENDING with the override
-- headers and the original policy that the reply needs.
pub data CspWork (Headers : Type 0) : Type 0 where
  ok : CspWork Headers
  io_pending : Headers → Option String → CspWork Headers

abbrev or_original {ℓ} : {A : Type ℓ} → Option A → A → A
or_original none original = original
or_original (some a) original = a

module _ {Client FilterSet Storage Policy Headers : Type 0}
    (api : EngineApi Client FilterSet Storage Policy) (same_domain_or_host : Gurl → String → Bool)
    (parse : String → Gurl) (headers : HeaderApi Headers) (w : EngineWrapper Client Policy) where
  unfoldable pub get_csp_directives_on_task_runner :
      Gurl → Gurl → ResourceType → Option String → Option String
  get_csp_directives_on_task_runner initiator_url request_url type original_csp =
      elim (source_host_of initiator_url request_url) [
        | none ↦ none
        | some source_host ↦ merge_csp_directive_into original_csp (
            wrapper_get_csp_directives api same_domain_or_host parse w request_url type source_host)
      ]

  unfoldable pub on_receive_csp_directives : Headers → Option String → Headers
  on_receive_csp_directives override_headers none = override_headers
  on_receive_csp_directives override_headers (some csp) = headers.add override_headers csp

  -- The override headers are copied from the response's where there are none yet.
  unfoldable pub on_headers_received :
      Option Headers → Option Headers → RequestInfo → CspWork Headers
  on_headers_received none override_headers ctx = ok
  on_headers_received (some response) override_headers ctx =
      let current = or_original override_headers response in
      if not ctx.allow_brave_shields
      then ok
      else if is_frame ctx.resource_type
      then io_pending (headers.remove current) (headers.get_normalized current)
      else ok

  abbrev finish_csp : RequestInfo → CspWork Headers → Option Headers → Option Headers
  finish_csp ctx ok override_headers = override_headers
  finish_csp ctx (io_pending current original_csp) override_headers = some (
      on_receive_csp_directives current (
        get_csp_directives_on_task_runner ctx.initiator_url ctx.request_url ctx.resource_type
          original_csp))

  -- The override headers after the work and its reply.
  unfoldable pub csp_work : Option Headers → Option Headers → RequestInfo → Option Headers
  unfolding on_headers_received
  csp_work response override_headers ctx =
      finish_csp ctx (on_headers_received response override_headers ctx) override_headers
