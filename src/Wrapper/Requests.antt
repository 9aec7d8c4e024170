-- ===== src/Wrapper/Requests.antt =====
-- How AdBlockEngineWrapper::ShouldStartRequest combines its two engines.
use chromium_adblock.Base.{String, Bool, false, not, ◌&&◌, ◌||◌, ◌≡◌, arith, if◌then◌else◌}
use chromium_adblock.Web.{Gurl, ResourceType}
use chromium_adblock.Engine.{EngineApi, BlockerResult, should_start_request}
use chromium_adblock.Wrapper.{EngineWrapper, wrapper_should_start_request}

-- The verdict that the callers draw from a result.
abbrev pub is_blocked : BlockerResult → Bool
is_blocked r = r.important || (r.matched && not r.has_exception)

module _ {Client FilterSet Storage Policy : Type 0}
    (api : EngineApi Client FilterSet Storage Policy) (same_domain_or_host : Gurl → String → Bool)
    (parse : String → Gurl) (w : EngineWrapper Client Policy) (url : Gurl) (type : ResourceType)
    (tab_host : String) (rule exception important : Bool) where
  abbrev from_default : BlockerResult
  from_default =
      should_start_request api same_domain_or_host w.default_engine url type tab_host rule exception
        important

  -- The additional engine is asked about the request's own URL.
  abbrev from_additional : BlockerResult
  from_additional =
      should_start_request api same_domain_or_host w.additional_filters_engine url type tab_host
        (rule || from_default.matched) (exception || from_default.has_exception)
        (important || from_default.important)

  abbrev combined : BlockerResult
  combined =
      wrapper_should_start_request api same_domain_or_host parse w url type tab_host rule exception
        important

  -- The combined verdict: a request is blocked exactly if an engine that is asked has an important
  -- rule, or one has a rule and neither has an exception; the additional engine is not asked where
  -- the default one has an important rule.
  pub wrapper_should_start_request_verdict : is_blocked combined ≡ (
      from_default.important
      || (from_additional.important
          || ((from_default.matched || from_additional.matched)
              && not (from_default.has_exception || from_additional.has_exception))))
  unfolding wrapper_should_start_request
  wrapper_should_start_request_verdict = ground arith

  -- A rewritten URL comes from the additional engine alone: whatever removeparam rule the default
  -- engine has, its rewrite is switched off, and where the additional engine is asked, the result
  -- has that engine's rewrite.
  pub wrapper_should_start_request_rewrite : combined.rewritten_url ≡ (
      if from_default.important
      then record (from_default.rewritten_url) { has_value = false }
      else from_additional.rewritten_url)
  unfolding wrapper_should_start_request
  wrapper_should_start_request_rewrite = ground arith

  -- A redirect of the additional engine has precedence over one of the default engine, which is
  -- used where the additional engine gives none or is not asked.
  pub wrapper_should_start_request_redirect : combined.redirect ≡ (
      if not from_default.important && from_additional.redirect.has_value
      then from_additional.redirect
      else if from_default.important || from_default.redirect.has_value
      then from_default.redirect
      else from_additional.redirect)
  unfolding wrapper_should_start_request
  wrapper_should_start_request_redirect = ground arith
