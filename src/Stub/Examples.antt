-- ===== src/Stub/Examples.antt =====
-- The stand-ins at concrete requests.
use chromium_adblock.Base.{◌≡◌, refl, none, some, [], ◌∷◌, inl}
use chromium_adblock.Stub.{
  png_1x1, body_text, get_content_for_mime_type, stub_of_accept, stub_of, make_stub_response,
}
use chromium_adblock.Stub.Choice.{make_stub_response_agrees}

-- An image that the page asks for as a PNG.
make_stub_response_agrees_example :
    (make_stub_response (λ url. none) (λ raw. record { raw = raw }) "" ("image/png" ∷ "*/*" ∷ [])).1
    ≡ png_1x1
unfolding make_stub_response stub_of stub_of_accept
make_stub_response_agrees_example =
    (make_stub_response_agrees (λ url. none) "" ("image/png" ∷ "*/*" ∷ [])
      (λ raw. record { raw = raw }) (inl refl)).1

png : stub_of (λ url. none) "" ("image/png" ∷ "*/*" ∷ []) ≡ ("image/png", png_1x1)
unfolding stub_of stub_of_accept get_content_for_mime_type
png = refl

-- A data URL without a mime type keeps the type of the Accept header.
plain_data :
    stub_of
      (λ url. some (record { mime_type = "text/plain"; body = "x" }))
      "data:,x"
      ("text/css" ∷ [])
    ≡ ("text/css", body_text "x")
unfolding stub_of stub_of_accept
plain_data = refl
