-- ===== src/Stub/Choice.antt =====
-- Which stand-in a blocked request gets
-- (components/brave_shields/content/browser/adblock_stub_response.cc).

use Prim.Native.String.{◌++◌ as concat}
use text.Mathlib.Text.{starts_with}
use chromium_adblock.Base.{
  String, Bool, true, false, ◌≡◌, refl, Option, none, some, is_empty, List, [], ◌∷◌, ◌⊎◌, inl, inr,
  if◌then◌else◌, ◌=s=◌,
}
use chromium_adblock.Stub.{
  ResponseHead, ResponseHeaders, Content, DataUrl, get_content_for_mime_type, Stub, stub_of_accept,
  with_data_url, stub_of, make_stub_response, avif_1x1, webp_1x1, png_1x1, gif_1x1, jpeg_1x1,
  body_text,
}

-- The images of one pixel by the types that they stand in for.
abbrev pub images : List (String × Content)
images =
    ("image/avif", avif_1x1)
    ∷ ("image/webp", webp_1x1)
    ∷ ("image/*", png_1x1)
    ∷ ("image/apng", png_1x1)
    ∷ ("image/png", png_1x1)
    ∷ ("image/x-png", png_1x1)
    ∷ ("image/gif", gif_1x1)
    ∷ ("image/jpeg", jpeg_1x1)
    ∷ []

-- The image of a type, or nothing.
abbrev pub body_in : List (String × Content) → String → Content
body_in [] mime_type = body_text ""
body_in ((name, image) ∷ more) mime_type =
    if mime_type =s= name then image else body_in more mime_type

-- The type that a page asks for: the first of its Accept header, but HTML for a wildcard and where
-- there is none.
abbrev pub asked_type : List String → String
asked_type [] = "text/html"
asked_type (entry ∷ rest) = if starts_with entry "*" then "text/html" else entry

-- The type is the one asked for, and the body is the type's.
abbrev Agrees : List String → Stub → Type 0
Agrees entries (mime_type, content) =
    (mime_type ≡ asked_type entries) × (content ≡ body_in images mime_type)

stub_of_accept-Agrees : (entries : List String) → Agrees entries (stub_of_accept entries)
unfolding stub_of_accept get_content_for_mime_type
stub_of_accept-Agrees [] = (refl, refl)
stub_of_accept-Agrees (entry ∷ rest) = (refl, refl)

module _ (parse_data_url : String → Option DataUrl) (data_url : String) (entries : List String)
    (assemble : String → ResponseHeaders) where
  abbrev head : ResponseHead
  head = (make_stub_response parse_data_url assemble data_url entries).0

  abbrev body : Content
  body = (make_stub_response parse_data_url assemble data_url entries).1

  stub_of-Agrees :
      (is_empty data_url ≡ true) ⊎ (parse_data_url data_url ≡ none)
      → Agrees entries (stub_of parse_data_url data_url entries)
  unfolding stub_of
  stub_of-Agrees (inl empty) = rw empty (stub_of_accept-Agrees entries)
  stub_of-Agrees (inr bad) = by_empty (is_empty data_url)
    where
      by_empty :
          (empty : Bool)
          → Agrees entries (
              if empty
              then stub_of_accept entries
              else with_data_url data_url (stub_of_accept entries) (parse_data_url data_url))
      by_empty true = stub_of_accept-Agrees entries
      by_empty false = rw bad (stub_of_accept-Agrees entries)

  -- A stand-in without a data URL, or with one that cannot be parsed, has the mime type that the
  -- Accept header asks for first, or HTML where that is a wildcard or missing, and the body of that
  -- type: the image of one pixel for one of eight image types, and nothing for any other. Its raw
  -- headers are a 200 response for any origin, whose Content-Type names the same mime type.
  pub make_stub_response_agrees :
      (is_empty data_url ≡ true) ⊎ (parse_data_url data_url ≡ none)
      → (head.mime_type ≡ asked_type entries)
        × (body ≡ body_in images head.mime_type)
        × (head.headers
            ≡ some (
                assemble (
                  concat "HTTP/1.1 200 OK\r\nAccess-Control-Allow-Origin: *\r\nContent-Type: "
                    (concat head.mime_type "\r\n"))))
  unfolding make_stub_response
  make_stub_response_agrees h = let (asked, right) = stub_of-Agrees h in (asked, right, refl)
