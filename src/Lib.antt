-- ===== src/Lib.antt =====
-- A model of chromium-adblock, the ad blocking of a Chromium based browser: the C++ that decides
-- whether a request is blocked, rewritten or answered by a stand-in, what becomes of a response's
-- content security policy and of a page's elements, and how the filter lists behind this are kept.
-- Paths here are from the repository's root; the other files leave out the leading `src/`.
--
-- How the parts work together. A request is taken by BraveProxyingURLLoaderFactory, a web socket by
-- BraveProxyingWebSocket. Both hand it to BraveRequestHandler, which runs chains of callbacks over
-- it, and carry out its verdict: block, send elsewhere, answer with a stub response, or go on. One
-- of the callbacks is the blocking helper of the network delegate, which asks the engines about its
-- URL and about the URL of its canonical name; another, for responses, is the CSP helper. The
-- engines are two AdBlockEngine behind an AdBlockEngineWrapper. AdBlockService fills them, from the
-- cached DAT files and from the filter lists that AdBlockFiltersProviderManager collects, and with
-- the resources of AdBlockCustomResourceProvider. The lists come from the user's custom filters and
-- from the subscriptions. The domain block throttle asks the engines about whole navigations. In
-- the renderer a frame's observer and its handler ask CosmeticFiltersResources, which asks the
-- engines, for the rules of a page, and apply them. The settings page changes the subscriptions,
-- the custom filters and the custom resources by messages.
--
-- Which file models which part:
--   Base, Web          the shared helpers; what the code reads of a GURL, and the resource types
--                      (`Base.Dict` is base::DictValue, base::flat_map and std::map by key order)
--   Engine             AdBlockEngine, src/components/brave_shields/content/browser/
--                      ad_block_engine.{h,cc}; `Engine.Loading` has the theorems on its loads
--   Wrapper            AdBlockEngineWrapper, ad_block_engine_wrapper.{h,cc} there, with
--                      MergeCspDirectiveInto of core/browser/ad_block_service_helper.cc;
--                      `Wrapper.Cosmetic` has MergeResourcesInto and StripProceduralFilters
--   Delegate           src/chrome/browser/net/brave_ad_block_tp_network_delegate_helper.cc, with
--                      the fields of BraveRequestInfo (url_context.{h,cc}); `Delegate.Flow` is
--                      OnBeforeURLRequestAdBlockTP with all its replies
--   Csp                src/chrome/browser/net/brave_ad_block_csp_network_delegate_helper.cc
--   Handler            BraveRequestHandler, src/chrome/browser/net/brave_request_handler.{h,cc}
--   Context            BraveRequestInfo::MakeCTX, src/chrome/browser/net/url_context.cc
--   Stub               MakeStubResponse, src/components/brave_shields/content/browser/
--                      adblock_stub_response.{h,cc}
--   Loader             BraveProxyingURLLoaderFactory and its InProgressRequest, src/chrome/browser/
--                      net/brave_proxying_url_loader_factory.{h,cc}; `Loader.Protocol` is what a
--                      request promises to its client and to the network
--   Socket             BraveProxyingWebSocket, brave_proxying_web_socket.{h,cc} there
--   Renderer           CosmeticFiltersResources, CosmeticFiltersJSHandler and
--                      CosmeticFiltersJsRenderFrameObserver of src/components/cosmetic_filters/
--   Filters            AdBlockFiltersProviderManager, src/components/brave_shields/core/browser/
--                      ad_block_filters_provider_manager.{h,cc}
--   Service            AdBlockService, src/components/brave_shields/content/browser/
--                      ad_block_service.{h,cc}
--   CustomResources    AdBlockCustomResourceProvider, src/components/brave_shields/core/browser/
--                      ad_block_custom_resource_provider.{h,cc}; `CustomResources.Loading` has the
--                      loads under way and the replies that they wait for
--   DomainBlock        domain_block_navigation_throttle.cc, domain_block_controller_client.cc and
--                      ad_block_custom_filters_provider.cc of content/browser
--   Subscriptions      AdBlockSubscriptionServiceManager, content/browser/
--                      ad_block_subscription_service_manager.{h,cc}
--   Downloads          ad_block_subscription_download_manager.{h,cc} and
--                      ad_block_subscription_download_client.cc there
--   Settings           AdblockDOMHandler, src/chrome/browser/ui/webui/brave_adblock_ui.cc;
--                      `Settings.Served` has the messages that do not fail a CHECK
-- A module named Examples has the properties at concrete inputs.
--
-- How state and operations correspond to the code. A class is a record of its members, an operation
-- a function from the record to the record it leaves, with its result; names are the source's, in
-- lower case with underscores. What an operation does to the world, such as a task that it posts,
-- an observer that it notifies or a download that it starts, is a list or a counter in the record or
-- in the result. A reply that comes later is an operation of its own, so that orders of replies are
-- orders of operations: `Delegate.Flow` runs over everything the lookup may answer and every moment
-- at which the request may go away, `Handler.Outcomes` over whatever replies change of a request,
-- Loader, Socket, Renderer, Settings and CustomResources.Loading over all sequences of messages,
-- replies and errors, and CustomResources.Runs, Subscriptions and Engine over all sequences of
-- operations.
--
-- Parameters, for code that is not in the repository: the adblock crate (`EngineApi`), net's
-- SameDomainOrHost, the parsing of URLs, response headers (`HeaderApi`, with the laws of getting,
-- removing and adding a header), the headers, redirects and origins that the proxies use (`Net`),
-- V8, base::WriteJson, base::IsStringASCII, base::JSONValueConverter and the values of times. Where
-- a theorem needs something of them it is a named hypothesis: the crate keeps its discard policy
-- when resources change or expressions are discarded (`PolicyLaws`), the laws of `HeaderApi`, that
-- the converter reads back the `enabled` field that was stored, and that a time is read back from
-- its value.
--
-- Fuel and bounds. The loop of StripProceduralFilters and the chains of RunNextCallback run on fuel.
-- The first is shown to end within its fuel on all lists that the crate writes, and never to pass an
-- entry that is not a string; the second needs one round for each callback left and one more.
-- `run_with_replies` has a round for each reply, and `answer_jobs` two, for the directory of a
-- download and then for its file, after which no file job is left. Numbers are natural numbers: the code compares and
-- counts sizes and times that stay far below the width of its integers. Times are microseconds, and
-- a difference of times is written as a sum on the other side.
--
-- What is not modelled: in the renderer the texts, themes and remote handler of the element picker
-- and the performance tracker; the resource providers, the other filters providers and the control
-- types of the settings; pure input and output, metrics, traces, strings of pages, factories and
-- tests; debug information. A DCHECK is not part of a release build, and is left out.
pub mod Base
pub mod Web
pub mod Engine
pub mod Wrapper
pub mod Delegate
pub mod Csp
pub mod Handler
pub mod Filters
pub mod Service
pub mod Context
pub mod Stub
pub mod Loader
pub mod Socket
pub mod Renderer
pub mod CustomResources
pub mod DomainBlock
pub mod Subscriptions
pub mod Downloads
pub mod Settings
