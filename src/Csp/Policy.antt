-- ===== src/Csp/Policy.antt =====
-- The policy of a response after the CSP helper has worked on it.
use Prim.Native.String.{◌++◌ as concat}
use chromium_adblock.Base.{String, Bool, true, ◌≡◌, refl, ◌∙◌, Option, none, some, List, [], ◌∷◌}
use chromium_adblock.Web.{Gurl}
use chromium_adblock.Engine.{EngineApi, get_csp_directives}
use chromium_adblock.Wrapper.{EngineWrapper, wrapper_get_csp_directives, merge_csp_directive_into}
use chromium_adblock.Delegate.Types.{RequestInfo}
use chromium_adblock.Csp.{
  HeaderApi, source_host_of, is_frame, or_original, csp_work, get_csp_directives_on_task_runner,
  on_receive_csp_directives,
}

-- The directives that are there, as one header value.
abbrev pub present : List (Option String) → List String
present [] = []
present (none ∷ os) = present os
present (some s ∷ os) = s ∷ present os

abbrev pub join : List String → Option String
join [] = none
join (s ∷ []) = some s
join (s ∷ t ∷ ts) = elim (join (t ∷ ts)) [
  | none ↦ some s
  | some rest ↦ some (concat s (concat ", " rest))
]

merge-join :
    (original additional default : Option String)
    → merge_csp_directive_into original (merge_csp_directive_into additional default)
      ≡ join (present (original ∷ additional ∷ default ∷ []))
unfolding merge_csp_directive_into
merge-join none none none = refl
merge-join none none (some c) = refl
merge-join none (some b) none = refl
merge-join none (some b) (some c) = refl
merge-join (some a) none none = refl
merge-join (some a) none (some c) = refl
merge-join (some a) (some b) none = refl
merge-join (some a) (some b) (some c) = refl

abbrev pub policy_of : {Headers : Type 0} → HeaderApi Headers → Option Headers → Option String
policy_of headers none = none
policy_of headers (some h) = headers.get_normalized h

module _ {Client FilterSet Storage Policy Headers : Type 0}
    (api : EngineApi Client FilterSet Storage Policy) (same_domain_or_host : Gurl → String → Bool)
    (parse : String → Gurl) (headers : HeaderApi Headers) (w : EngineWrapper Client Policy) where
  -- The header is removed, and then set to the merged policy, if there is one.
  get-on_receive :
      (current : Headers) (csp : Option String)
      → headers.get_normalized (
          on_receive_csp_directives api same_domain_or_host parse headers w
            (headers.remove current)
            csp)
        ≡ csp
  unfolding on_receive_csp_directives
  get-on_receive current none = headers.get-remove current
  get-on_receive current (some v) =
      headers.get-add (headers.remove current) v (headers.get-remove current)

  module _ (response : Headers) (override_headers : Option Headers) (ctx : RequestInfo)
      (shields : ctx.allow_brave_shields ≡ true) (frame : is_frame ctx.resource_type ≡ true) where
    abbrev original : Option String
    original = headers.get_normalized (or_original override_headers response)

    get-csp_work :
        policy_of headers
          (csp_work api same_domain_or_host parse headers w (some response) override_headers ctx)
        ≡ get_csp_directives_on_task_runner api same_domain_or_host parse headers w
            ctx.initiator_url ctx.request_url ctx.resource_type original
    unfolding csp_work
    get-csp_work = rw (shields, frame) (get-on_receive (or_original override_headers response) _)

    -- For a frame under shields, and where the initiator has a host or the request's URL is valid,
    -- the policy of the response becomes the original one, the additional engine's and the default
    -- engine's, as far as they are there, in this order: the original policy is never dropped.
    pub csp_work-join :
        (source_host : String)
        → source_host_of ctx.initiator_url ctx.request_url ≡ some source_host
        → policy_of headers
            (csp_work api same_domain_or_host parse headers w (some response) override_headers ctx)
          ≡ join (
              present (
                original
                ∷ get_csp_directives api same_domain_or_host w.additional_filters_engine
                    ctx.request_url ctx.resource_type source_host
                ∷ get_csp_directives api same_domain_or_host w.default_engine ctx.request_url
                    ctx.resource_type source_host
                ∷ []))
    unfolding get_csp_directives_on_task_runner wrapper_get_csp_directives
    csp_work-join source_host e =
        get-csp_work
        ∙ rw (e, get_csp_directives_on_task_runner)
            (merge-join original
              (get_csp_directives api same_domain_or_host w.additional_filters_engine
                ctx.request_url ctx.resource_type source_host)
              (get_csp_directives api same_domain_or_host w.default_engine ctx.request_url
                ctx.resource_type source_host))

    -- Where neither URL gives a source host, the original policy of a frame under shields is removed
    -- for good.
    pub csp_work-no_source :
        source_host_of ctx.initiator_url ctx.request_url ≡ none
        → policy_of headers
            (csp_work api same_domain_or_host parse headers w (some response) override_headers ctx)
          ≡ none
    unfolding get_csp_directives_on_task_runner
    csp_work-no_source e = get-csp_work ∙ rw (e, get_csp_directives_on_task_runner)
