-- ===== src/Loader/Sends.antt =====
-- What a request does when the callbacks have let it go on, or have a stand-in for it
-- (chrome/browser/net/brave_proxying_url_loader_factory.cc).
use mathlib.Core.List.{append_assoc}
use chromium_adblock.Loader.Response.{status_for, on_write, on_complete}
use chromium_adblock.Loader.Events.{
  continues, to_before_send_headers, writes, after_write, Event, deliver, handle, run,
}
use chromium_adblock.Base.{
  ℕ, String, List, true, false, ◌≡◌, refl, subst, ap, ◌∙◌, Option, none, some, [], ◌∷◌, ◌++◌,
  is_empty, is_nil, arith, if◌then◌else◌,
}
use chromium_adblock.Stub.{ResponseHead, Content, content_size, make_stub_response}
use chromium_adblock.Web.{Gurl}
use chromium_adblock.Delegate.Types.{RequestInfo, should_mock_request}
use chromium_adblock.Handler.Types.{ok}
use chromium_adblock.Context.{Ctx, ResourceRequest}
use chromium_adblock.Loader.Types.{
  bound, resume_receiver, received_response, wrote_body, completed, created_loader,
  InProgressRequest, Net, Effect,
}
use chromium_adblock.Loader.Start.{is_not_blocked, remove_request, redirect_url_of, with_referrer}
use chromium_adblock.Loader.Before.{
  accept_of, respond, stub_for, answer_blocked, start_transaction, continue_to_before_send_headers,
}
use chromium_adblock.Loader.Sent.{Sent, start_transaction-Sent}

module _ (net : Net) where
  -- The referrer that the callbacks have put in, or the request's own.
  abbrev pub referrer_after : Option Gurl → Gurl → Gurl
  referrer_after none own = own
  referrer_after (some referrer) own = referrer

  with_referrer-referrer_after :
      (c : Ctx) (request : ResourceRequest)
      → with_referrer (some c) request
        ≡ record request { referrer = referrer_after c.new_referrer request.referrer }
  with_referrer-referrer_after c request = by_referrer c.new_referrer
    where
      by_referrer :
          (new_referrer : Option Gurl)
          → elim new_referrer [
            | none ↦ request
            | some referrer ↦ record request { referrer = referrer }
          ]
            ≡ record request { referrer = referrer_after new_referrer request.referrer }
      by_referrer none = refl
      by_referrer (some referrer) = refl

  -- The request as it is when it is answered or sent.
  abbrev at_answer : Ctx → InProgressRequest → InProgressRequest
  at_answer c ip = record ip {
    ctx = some c;
    request = with_referrer (some c) ip.request;
    proxied_client = resume_receiver ip.proxied_client;
  }

  -- A request that the callbacks neither block nor send elsewhere is sent: where no callback waits
  -- for OnBeforeStartTransaction, as SetupCallbacks leaves it, no FollowRedirect is pending, there
  -- is no loader yet and the factory is there, it makes exactly one loader, for the request with
  -- the referrer that the callbacks have put in, and listens to it.
  pub continue_to_before_send_headers_sends :
      (c : Ctx) (ip : InProgressRequest)
      → is_empty (redirect_url_of (some c)).spec ≡ true
      → is_not_blocked c.context.info.blocked_by ≡ true
      → is_nil ip.handler.before_start_transaction_callbacks ≡ true
      → ip.pending_follow_redirect_params ≡ none
      → ip.target_loader_bound ≡ false
      → ip.target_factory_bound ≡ true
      → ((continue_to_before_send_headers net ok (record ip { ctx = some c })).effects
          ≡ ip.effects
            ++ created_loader
                (record ip.request { referrer = referrer_after c.new_referrer ip.request.referrer })
              ∷ [])
        × ((continue_to_before_send_headers net ok (record ip { ctx = some c })).target_loader_bound
            ≡ true)
        × ((continue_to_before_send_headers net ok (record ip { ctx = some c })).proxied_client
            ≡ bound)
        × ((continue_to_before_send_headers net ok (record ip { ctx = some c })).removed
            ≡ ip.removed)
  unfolding continue_to_before_send_headers
  continue_to_before_send_headers_sends c ip nowhere free no_callback nothing_pending unbound_loader
        factory =
      rw (nowhere, free)
        (subst (λ request. Sent net request ip (start_transaction net (at_answer c ip)))
          (with_referrer-referrer_after c ip.request)
          (start_transaction-Sent net (at_answer c ip) no_callback nothing_pending unbound_loader
            factory))

  not_blocked-mocked :
      (info : RequestInfo)
      → should_mock_request info ≡ true
      → is_not_blocked info.blocked_by ≡ false
  unfolding should_mock_request
  not_blocked-mocked info mocked = ground arith

  continue_to_before_send_headers-respond :
      (c : Ctx) (ip : InProgressRequest) (consumer : ℕ)
      → is_empty (redirect_url_of (some c)).spec ≡ true
      → should_mock_request c.context.info ≡ true
      → net.pipe ≡ some consumer
      → continue_to_before_send_headers net ok (record ip { ctx = some c })
        ≡ respond net (at_answer c ip) c (some consumer)
  unfolding continue_to_before_send_headers answer_blocked
  continue_to_before_send_headers-respond c ip consumer nowhere mocked pipe =
      rw (nowhere, not_blocked-mocked c.context.info mocked, mocked)
        (ap (respond net (at_answer c ip) c) pipe)

  deliver_alive :
      (event : Event) (ip : InProgressRequest)
      → ip.removed ≡ false
      → deliver net event ip ≡ handle net event ip
  unfolding deliver
  deliver_alive event ip alive = ap (λ removed. if removed then ip else handle net event ip) alive

  abbrev pub accept_text : Option String → String
  accept_text none = ""
  accept_text (some accept) = accept

  -- The stand-in that MakeStubResponse makes of the data URL and of the request's Accept header.
  abbrev pub stand_in : InProgressRequest → Ctx → ResponseHead × Content
  stand_in ip c =
      make_stub_response net.parse_data_url net.assemble_raw_headers c.context.info.mock_data_url
        (net.split_accept (accept_text (net.get_header ip.request.headers "Accept")))

  stub_for-stand_in :
      (c : Ctx) (ip : InProgressRequest)
      → stub_for net (with_referrer (some c) ip.request) c ≡ stand_in ip c
  stub_for-stand_in c ip =
      ap (λ request. stub_for net request c) (with_referrer-referrer_after c ip.request)
      ∙ by_accept (net.get_header ip.request.headers "Accept")
    where
      by_accept :
          (accept : Option String)
          → make_stub_response net.parse_data_url net.assemble_raw_headers
              c.context.info.mock_data_url
              (net.split_accept (accept_of net accept))
            ≡ make_stub_response net.parse_data_url net.assemble_raw_headers
                c.context.info.mock_data_url
                (net.split_accept (accept_text accept))
      by_accept none = refl
      by_accept (some accept) = refl

  -- What a client is told of a stand-in: the response, and, when its body has been written, a
  -- completion.
  abbrev told_of : InProgressRequest → ℕ → ResponseHead × Content → List Effect
  told_of ip consumer (head, body) =
      received_response (some head) (some consumer) ip.cached_metadata
      ∷ wrote_body body
      ∷ completed (record {
        error_code = ok;
        should_collapse_initiator = false;
        encoded_data_length = content_size body;
        encoded_body_length = content_size body;
        decoded_body_length = content_size body;
      })
      ∷ []

  -- A blocked request with a stand-in, which is not sent elsewhere, and with no other body under
  -- way, is answered without the network, where a pipe can be made: its client gets a response
  -- whose head and body are those that MakeStubResponse makes of the stand-in's data URL and of the
  -- request's Accept header, and, when the pipe has written that body, a completion without an
  -- error that counts the body's bytes in each of its lengths.
  pub continue_to_before_send_headers_mocks :
      (c : Ctx) (ip : InProgressRequest) (consumer : ℕ)
      → is_empty (redirect_url_of (some c)).spec ≡ true
      → should_mock_request c.context.info ≡ true
      → net.pipe ≡ some consumer
      → ip.removed ≡ false
      → ip.writing ≡ []
      → let (head, body) = stand_in ip c in
        let after =
          run net
            (continues to_before_send_headers ok ∷ writes true ∷ [])
            (record ip { ctx = some c }) in
        (after.effects
          ≡ ip.effects
            ++ received_response (some head) (some consumer) ip.cached_metadata
              ∷ wrote_body body
              ∷ completed (record {
                error_code = ok;
                should_collapse_initiator = false;
                encoded_data_length = content_size body;
                encoded_body_length = content_size body;
                decoded_body_length = content_size body;
              })
              ∷ [])
        × (after.removed ≡ true)
  unfolding run handle on_write on_complete remove_request
  continue_to_before_send_headers_mocks c ip consumer nowhere mocked pipe alive none_written =
      let stub = stub_for net (with_referrer (some c) ip.request) c in
      let answered = respond net (at_answer c ip) c (some consumer) in
      let first : deliver net (continues to_before_send_headers ok) (record ip { ctx = some c })
          ≡ answered =
        deliver_alive (continues to_before_send_headers ok) (record ip { ctx = some c }) alive
        ∙ continue_to_before_send_headers-respond c ip consumer nowhere mocked pipe in
      let then_writes : deliver net (writes true) answered
          ≡ on_write net true stub.1 (record answered { writing = [] }) =
        deliver_alive (writes true) answered alive
        ∙ ap (λ before. after_write net true (before ++ stub.1 ∷ []) answered) none_written in
      let both = ap (λ x. deliver net (writes true) x) first ∙ then_writes in
      (
        ap (λ x. x.effects) both
            ∙ ap (λ es. es ++ completed (status_for stub.1) ∷ []) (append_assoc ip.effects _ _)
            ∙ append_assoc ip.effects _ _
            ∙ ap (λ st. ip.effects ++ told_of ip consumer st) (stub_for-stand_in c ip),
        ap (λ x. x.removed) both,
      )
