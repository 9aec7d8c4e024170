-- ===== src/Context.antt =====
-- The request as the network stack hands it over, and BraveRequestInfo::MakeCTX, which makes the
-- context of it that the callbacks work on (chrome/browser/net/url_context.{h,cc}).
-- url::Origin is another library's: an origin is known by its GURL, and the other operations on it
-- are parameters.
use Prim.Native.String.{◌++◌ as concat}
use chromium_adblock.Base.{
  ℕ, String, Bool, false, not, ◌||◌, Option, none, some, is_empty, List, [], ◌∷◌, if◌then◌else◌,
}
use chromium_adblock.Web.{Gurl, ResourceType, scheme_is_http_or_https}
use chromium_adblock.Delegate.Types.{not_blocked}
use chromium_adblock.Handler.Types.{Context, EventType}

-- A url::Origin, by what its GetURL gives.
pub record Origin : Type 0 where
  pub get_url : Gurl

abbrev pub empty_gurl : Gurl
empty_gurl = record { spec = ""; scheme = ""; host = ""; is_valid = false }

-- An element of a request's body: bytes, here as a text, or a file or a pipe.
pub data DataElement : Type 0 where
  bytes : String → DataElement
  other_element : DataElement

-- The fields of a network::ResourceRequest that the code reads or writes. `trusted_params` holds
-- the top frame's origin of the isolation info, which may be absent.
pub record ResourceRequest : Type 0 where
  pub url : Gurl
  pub method : String
  pub headers : List (String × String)
  pub referrer : Gurl
  pub referrer_policy : ℕ
  pub site_for_cookies : Gurl
  pub request_initiator : Option Origin
  pub request_body : Option (List DataElement)
  pub resource_type : ResourceType
  pub trusted_params : Option (Option Origin)
  pub devtools_request_id : Option String
  pub update_first_party_url_on_redirect : Bool
  pub is_outermost_main_frame : Bool

-- A BraveRequestInfo: what the request handler sees of it (`context`), and the rest.
pub record Ctx : Type 0 where
  pub context : Context
  pub tab_origin : Gurl
  pub referrer : Gurl
  pub referrer_policy : ℕ
  pub new_referrer : Option Gurl
  pub internal_redirect : Bool
  pub redirect_source : Gurl
  pub upload_data : String
  pub removed_headers : List String
  pub modified_headers : List String

abbrev bytes_of : List DataElement → String
bytes_of [] = ""
bytes_of (bytes b ∷ rest) = concat b (bytes_of rest)
bytes_of (other_element ∷ rest) = bytes_of rest

unfoldable pub get_upload_data : ResourceRequest → String
get_upload_data request = elim request.request_body [
  | none ↦ ""
  | some elements ↦ bytes_of elements
]

-- The operations of url::Origin that the code calls.
pub record OriginApi : Type 0 where
  -- url::Origin()
  pub opaque : Origin
  -- url::Origin::Create
  pub create : Gurl → Origin
  pub is_same_origin_with : Origin → Origin → Bool

abbrev or_opaque : OriginApi → Option Origin → Gurl
or_opaque origins none = origins.opaque.get_url
or_opaque origins (some origin) = origin.get_url

abbrev trusted_origin : OriginApi → Option (Option Origin) → Gurl
trusted_origin origins none = empty_gurl
trusted_origin origins (some top_frame_origin) = or_opaque origins top_frame_origin

-- `committed` is the last committed URL of the frame's WebContents, if there is one.
abbrev committed_origin : OriginApi → Option Gurl → Gurl
committed_origin origins none = empty_gurl
committed_origin origins (some url) = (origins.create url).get_url

unfoldable pub tab_origin_of : OriginApi → ResourceRequest → Option Gurl → Gurl
tab_origin_of origins request committed =
    let trusted = trusted_origin origins request.trusted_params in
    if is_empty trusted.spec then committed_origin origins committed else trusted

abbrev old_internal_redirect : Option Ctx → Bool
old_internal_redirect none = false
old_internal_redirect (some old) = old.internal_redirect

abbrev old_redirect_source : Option Ctx → Gurl
old_redirect_source none = empty_gurl
old_redirect_source (some old) = old.redirect_source

-- BraveRequestInfo::MakeCTX. What the old context knew of a redirect is kept, and nothing else.
unfoldable pub make_ctx : OriginApi → ResourceRequest → ℕ → Bool → Option Gurl → Option Ctx → Ctx
unfolding get_upload_data
make_ctx origins request request_identifier has_browser_context committed old_ctx =
    let tab_origin = tab_origin_of origins request committed in
    record {
      context = record {
        info = record {
          request_url = request.url;
          initiator_url = or_opaque origins request.request_initiator;
          resource_type = request.resource_type;
          method = request.method;
          devtools_request_id = request.devtools_request_id;
          allow_brave_shields = not tab_origin.is_valid || scheme_is_http_or_https tab_origin;
          has_browser_context = has_browser_context;
          blocked_by = not_blocked;
          mock_data_url = "";
          new_url_spec = "";
        };
        request_identifier = request_identifier;
        next_url_request_index = 0;
        pending_error = none;
        event_type = EventType.unknown_event_type;
        new_url = none;
      };
      tab_origin = tab_origin;
      referrer = request.referrer;
      referrer_policy = request.referrer_policy;
      new_referrer = none;
      internal_redirect = old_internal_redirect old_ctx;
      redirect_source = old_redirect_source old_ctx;
      upload_data = get_upload_data request;
      removed_headers = [];
      modified_headers = [];
    }
