-- ===== src/Stub.antt =====
-- The response that stands in for a blocked request: MakeStubResponse
-- (components/brave_shields/content/browser/adblock_stub_response.cc).
-- Response headers are known by their raw text; the parsers of headers and of data URLs are other
-- libraries', and parameters.
pub mod Choice
pub mod Examples
use Prim.Native.String.{◌++◌ as concat, len}
use text.Mathlib.Text.{starts_with}
use chromium_adblock.Base.{
  ℕ, String, Bool, true, false, not, ◌&&◌, Option, none, some, is_empty, List, [], ◌∷◌,
  if◌then◌else◌, ◌=s=◌,
}

-- net::HttpResponseHeaders, by the text that they are assembled from.
pub record ResponseHeaders : Type 0 where
  pub raw : String

-- The fields of a network::mojom::URLResponseHead that the code sets.
pub record ResponseHead : Type 0 where
  pub mime_type : String
  pub headers : Option ResponseHeaders
  pub parsed_headers : Option String
  pub encoded_data_length : ℕ

-- The body: the five images of one pixel, or a text.
pub data Content : Type 0 where
  avif_1x1 webp_1x1 png_1x1 gif_1x1 jpeg_1x1 : Content
  body_text : String → Content

-- The bytes of a body; those of the images are counted in the source.
unfoldable pub content_size : Content → ℕ
content_size avif_1x1 = 499
content_size webp_1x1 = 34
content_size png_1x1 = 68
content_size gif_1x1 = 43
content_size jpeg_1x1 = 141
content_size (body_text s) = len s

-- GetContentForMimeType.
unfoldable pub get_content_for_mime_type : String → Content
get_content_for_mime_type mime_type =
    if mime_type =s= "image/avif"
    then avif_1x1
    else if mime_type =s= "image/webp"
    then webp_1x1
    else if mime_type =s= "image/*"
    then png_1x1
    else if mime_type =s= "image/apng"
    then png_1x1
    else if mime_type =s= "image/png"
    then png_1x1
    else if mime_type =s= "image/x-png"
    then png_1x1
    else if mime_type =s= "image/gif"
    then gif_1x1
    else if mime_type =s= "image/jpeg"
    then jpeg_1x1
    else body_text ""

-- What net::DataURL::Parse gives of a data URL that it can parse.
pub record DataUrl : Type 0 where
  pub mime_type : String
  pub body : String

-- The mime type and the body, as the steps of the function set them.
abbrev pub Stub : Type 0
Stub = String × Content

-- `entries` is the Accept header, split at commas and semicolons, without blanks and empty parts.
unfoldable pub stub_of_accept : List String → Stub
stub_of_accept [] = ("text/html", body_text "")
stub_of_accept (entry ∷ rest) =
    let mime_type = if starts_with entry "*" then "text/html" else entry in
    (mime_type, get_content_for_mime_type mime_type)

abbrev pub with_data_url : String → Stub → Option DataUrl → Stub
with_data_url data_url stub none = stub
with_data_url data_url (mime_type, content) (some parsed) = (
  if not (is_empty parsed.mime_type) && not (starts_with data_url "data:,")
      then parsed.mime_type
      else mime_type,
  body_text parsed.body,
)

abbrev pub raw_headers_of : String → String
raw_headers_of mime_type =
    concat "HTTP/1.1 200 OK\r\nAccess-Control-Allow-Origin: *\r\nContent-Type: "
      (concat mime_type "\r\n")

module _ (parse_data_url : String → Option DataUrl) where
  unfoldable pub stub_of : String → List String → Stub
  unfolding stub_of_accept
  stub_of data_url entries =
      if is_empty data_url
      then stub_of_accept entries
      else with_data_url data_url (stub_of_accept entries) (parse_data_url data_url)

  -- MakeStubResponse. `assemble` is AssembleRawHeaders.
  unfoldable pub make_stub_response :
      (String → ResponseHeaders) → String → List String → ResponseHead × Content
  unfolding stub_of
  make_stub_response assemble data_url entries =
      let (mime_type, content) = stub_of data_url entries in
      (
        record {
          mime_type = mime_type;
          headers = some (assemble (raw_headers_of mime_type));
          parsed_headers = none;
          encoded_data_length = 0;
        },
        content,
      )
