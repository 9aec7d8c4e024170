-- ===== src/Engine.antt =====
-- AdBlockEngine (components/brave_shields/content/browser/ad_block_engine.{h,cc}): one engine of
-- the adblock crate with its regex discard policy. The crate, reached through the cxx bridge of
-- core/common/adblock/rs, is the parameter `EngineApi`; histograms, traces and logs are left out.
pub mod Loading
pub mod Examples
use chromium_adblock.Base.{
  ℕ, String, Bool, true, false, not, ◌||◌, Option, none, some, List, [], is_empty, is_nil,
  if◌then◌else◌,
}
use chromium_adblock.Web.{
  Gurl, ResourceType, main_frame, sub_frame, stylesheet, script, image, font_resource, sub_resource,
  object, media, worker, shared_worker, prefetch, favicon, xhr, ping, service_worker, csp_report,
  plugin_resource, invalid,
}

-- adblock::OptionalString. The text is there whether or not `has_value` is set.
pub record OptionalString : Type 0 where
  pub has_value : Bool
  pub value : String

-- adblock::BlockerResult.
pub record BlockerResult : Type 0 where
  pub matched : Bool
  pub important : Bool
  pub has_exception : Bool
  pub redirect : OptionalString
  pub rewritten_url : OptionalString

-- DATFileDataBuffer, a vector of bytes.
abbrev pub DatFileDataBuffer : Type 0
DatFileDataBuffer = List ℕ

-- What a request asks of the crate's `matches`.
pub record Query : Type 0 where
  pub url : String
  pub hostname : String
  pub source_hostname : String
  pub request_type : String
  pub third_party : Bool
  pub previously_matched_rule : Bool
  pub force_check_exceptions : Bool

-- The crate, as the cxx bridge declares it. A result of another kind than Success is `none`.
pub record EngineApi (Client FilterSet Storage Policy : Type 0) : Type 0 where
  pub new_engine : Client
  pub matches : Client → Query → BlockerResult
  pub csp_directives : Client → String → String → String → String → Bool → String
  pub use_resource_storage : Client → Storage → Client
  pub set_regex_discard_policy : Client → Policy → Client
  pub discard_regex : Client → ℕ → Client
  pub engine_from_filter_set : FilterSet → Option Client
  pub engine_with_rules : DatFileDataBuffer → Option Client
  pub deserialize : DatFileDataBuffer → Option Client
  pub serialize : Client → DatFileDataBuffer
  pub hidden_class_id_selectors :
      Client → List String → List String → List String → Option (List String)

pub record Engine (Client Policy : Type 0) : Type 0 where
  pub ad_block_client : Client
  pub regex_discard_policy : Option Policy
  pub is_default_engine : Bool

unfoldable pub resource_type_to_string : ResourceType → String
resource_type_to_string main_frame = "main_frame"
resource_type_to_string sub_frame = "sub_frame"
resource_type_to_string stylesheet = "stylesheet"
resource_type_to_string script = "script"
resource_type_to_string favicon = "image"
resource_type_to_string image = "image"
resource_type_to_string font_resource = "font"
resource_type_to_string sub_resource = "other"
resource_type_to_string object = "object"
resource_type_to_string media = "media"
resource_type_to_string xhr = "xhr"
resource_type_to_string ping = "ping"
resource_type_to_string worker = ""
resource_type_to_string shared_worker = ""
resource_type_to_string prefetch = ""
resource_type_to_string service_worker = ""
resource_type_to_string csp_report = ""
resource_type_to_string plugin_resource = ""
resource_type_to_string invalid = ""

-- `same_domain_or_host url tab_host` is net's SameDomainOrHost against https://tab_host:80.
module _ {Client FilterSet Storage Policy : Type 0}
    (api : EngineApi Client FilterSet Storage Policy)
    (same_domain_or_host : Gurl → String → Bool) where
  unfoldable pub new : Bool → Engine Client Policy
  new is_default = record {
    ad_block_client = api.new_engine;
    regex_discard_policy = none;
    is_default_engine = is_default;
  }

  -- The source takes `previously_matched_important` too, and does not read it.
  unfoldable pub should_start_request :
      Engine Client Policy → Gurl → ResourceType → String → Bool → Bool → Bool → BlockerResult
  should_start_request e url type tab_host matched_rule matched_exception matched_important =
      api.matches e.ad_block_client (record {
        url = url.spec;
        hostname = url.host;
        source_hostname = tab_host;
        request_type = resource_type_to_string type;
        third_party = not (same_domain_or_host url tab_host);
        previously_matched_rule = matched_rule || matched_exception;
        force_check_exceptions = not matched_exception;
      })

  unfoldable pub get_csp_directives :
      Engine Client Policy → Gurl → ResourceType → String → Option String
  get_csp_directives e url type tab_host =
      let result =
        api.csp_directives e.ad_block_client url.spec url.host tab_host
          (resource_type_to_string type) (not (same_domain_or_host url tab_host)) in
      if is_empty result then none else some result

  unfoldable pub use_resources : Engine Client Policy → Storage → Engine Client Policy
  use_resources e storage = record e {
    ad_block_client = api.use_resource_storage e.ad_block_client storage;
  }

  unfoldable pub discard_regex : Engine Client Policy → ℕ → Engine Client Policy
  discard_regex e id = record e { ad_block_client = api.discard_regex e.ad_block_client id }

  unfoldable pub setup_discard_policy : Engine Client Policy → Policy → Engine Client Policy
  setup_discard_policy e policy = record e {
    regex_discard_policy = some policy;
    ad_block_client = api.set_regex_discard_policy e.ad_block_client policy;
  }

  unfoldable pub hidden_class_id_selectors :
      Engine Client Policy → List String → List String → List String → List String
  hidden_class_id_selectors e classes ids exceptions =
      elim (api.hidden_class_id_selectors e.ad_block_client classes ids exceptions) [
        | none ↦ []
        | some selectors ↦ selectors
      ]

  abbrev with_policy : Option Policy → Client → Client
  with_policy none client = client
  with_policy (some policy) client = api.set_regex_discard_policy client policy

  -- The new client gets the policy that is set, then the resources.
  unfoldable pub update_ad_block_client :
      Engine Client Policy → Client → Storage → Engine Client Policy
  unfolding use_resources
  update_ad_block_client e client storage =
      use_resources (record e { ad_block_client = with_policy e.regex_discard_policy client })
        storage

  -- The end of each loader: a client that the crate has built is taken over, a failure is reported.
  abbrev finish_load : Engine Client Policy → Option Client → Storage → Engine Client Policy × Bool
  finish_load e none storage = (e, false)
  finish_load e (some client) storage = (update_ad_block_client e client storage, true)

  unfoldable pub on_filter_set_loaded :
      Engine Client Policy → FilterSet → Storage → Engine Client Policy × Bool
  unfolding update_ad_block_client
  on_filter_set_loaded e filter_set storage =
      finish_load e (api.engine_from_filter_set filter_set) storage

  unfoldable pub on_list_source_loaded :
      Engine Client Policy → DatFileDataBuffer → Storage → Engine Client Policy × Bool
  unfolding update_ad_block_client
  on_list_source_loaded e filters storage = finish_load e (api.engine_with_rules filters) storage

  -- An empty buffer is refused before the crate sees it.
  unfoldable pub on_dat_loaded :
      Engine Client Policy → DatFileDataBuffer → Storage → Engine Client Policy × Bool
  unfolding update_ad_block_client
  on_dat_loaded e dat storage =
      if is_nil dat then (e, false) else finish_load e (api.deserialize dat) storage

  -- `Load(deserialize, dat_buf, storage)`.
  unfoldable pub load_buffer :
      Engine Client Policy → Bool → DatFileDataBuffer → Storage → Engine Client Policy × Bool
  unfolding on_dat_loaded on_list_source_loaded
  load_buffer e deserialize dat storage =
      if deserialize then on_dat_loaded e dat storage else on_list_source_loaded e dat storage

  unfoldable pub serialize : Engine Client Policy → DatFileDataBuffer
  serialize e = api.serialize e.ad_block_client
