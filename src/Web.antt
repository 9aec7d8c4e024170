-- ===== src/Web.antt =====
-- What the code sees of URLs and of blink's resource types.
use chromium_adblock.Base.{String, Bool, ◌||◌, ◌=s=◌}

-- The accessors of a GURL. Parsing is net's and url's, and a parameter where it is needed.
pub record Gurl : Type 0 where
  pub spec : String
  pub scheme : String
  pub host : String
  pub is_valid : Bool

-- blink::mojom::ResourceType, with the value -1 of BraveRequestInfo::kInvalidResourceType.
pub data ResourceType : Type 0 where
  main_frame sub_frame stylesheet script image font_resource sub_resource object media :
      ResourceType
  worker shared_worker prefetch favicon xhr ping service_worker csp_report : ResourceType
  plugin_resource invalid : ResourceType

unfoldable pub scheme_is_http_or_https : Gurl → Bool
scheme_is_http_or_https u = u.scheme =s= "http" || u.scheme =s= "https"

unfoldable pub scheme_is_ws_or_wss : Gurl → Bool
scheme_is_ws_or_wss u = u.scheme =s= "ws" || u.scheme =s= "wss"
