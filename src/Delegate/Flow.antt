-- ===== src/Delegate/Flow.antt =====
-- A request from the first query of the engines to the callback that goes on with it
-- (chrome/browser/net/brave_ad_block_tp_network_delegate_helper.cc): OnBeforeURLRequestAdBlockTP
-- and what its replies start, over everything that the world may do in between.
use chromium_adblock.Base.{
  ℕ, String, Bool, true, false, ◌&&◌, ◌||◌, ◌=s=◌, ◌≡◌, Option, none, some, is_empty, List, [], ◌∷◌,
  ◌++◌, arith, if◌then◌else◌,
}
use chromium_adblock.Web.{Gurl}
use chromium_adblock.Engine.{EngineApi}
use chromium_adblock.Wrapper.{EngineWrapper}
use chromium_adblock.Delegate.Types.{
  is_ad_blocked, EngineFlags, no_flags, RequestInfo, params_of, ShouldBlockRequestResult,
}
use chromium_adblock.Delegate.Check.{url_to_check, should_block_request_on_task_runner}
use chromium_adblock.Delegate.Reply.{
  Next, run_next, resolve_cname, query_engine, on_should_block_request_result, use_cname_result,
  on_complete,
}
use chromium_adblock.Delegate.PreWork.{ProxyConfig, should_check_uncloaked}

-- What happens outside: the answer of the lookup, and whether the request is still there when a
-- reply arrives.
pub record World : Type 0 where
  pub lookup : Option (List String)
  pub alive_at_first_reply : Bool
  pub alive_at_lookup : Bool
  pub alive_at_second_reply : Bool

pub record Outcome : Type 0 where
  pub ctx : Option RequestInfo
  -- the URLs that the queries checked
  pub queries : List Gurl
  pub lookups : ℕ
  -- how often `next_callback` was run
  pub next_runs : ℕ

abbrev if_alive : Bool → Option RequestInfo → Option RequestInfo
if_alive true ctx = ctx
if_alive false ctx = none

module _ {Client FilterSet Storage Policy : Type 0}
    (api : EngineApi Client FilterSet Storage Policy) (same_domain_or_host : Gurl → String → Bool)
    (parse : String → Gurl) (w : EngineWrapper Client Policy) (ctx : RequestInfo) where
  abbrev pub ask : EngineFlags → Option Gurl → ShouldBlockRequestResult
  ask flags canonical_url =
      should_block_request_on_task_runner api same_domain_or_host parse w (params_of ctx) flags
        canonical_url

  abbrev pub first_answer : ShouldBlockRequestResult
  first_answer = ask no_flags none

  -- The second query starts from the flags of the first.
  abbrev pub second_blocks : Option Gurl → Bool
  second_blocks none = false
  second_blocks (some url) = is_ad_blocked (ask first_answer.engine_flags (some url)).blocked_by

module _ {Client FilterSet Storage Policy : Type 0}
    (api : EngineApi Client FilterSet Storage Policy) (same_domain_or_host : Gurl → String → Bool)
    (parse : String → Gurl) (replace_host : Gurl → String → Gurl) (w : EngineWrapper Client Policy)
    (world : World) (ctx : RequestInfo) where
  -- A query: its answer, and the URL that it checks.
  abbrev ask_about : EngineFlags → Option Gurl → ShouldBlockRequestResult × Gurl
  ask_about flags canonical_url = (
    ask api same_domain_or_host parse w ctx flags canonical_url,
    url_to_check canonical_url ctx.request_url,
  )

  -- The lookup: its answer, and that it is one.
  abbrev look_up : Option (List String) × ℕ
  look_up = (world.lookup, 1)

  -- The end of a way on which `queries` and `lookups` have been made: only `run_next` is one.
  abbrev end_with : List Gurl → ℕ → Option RequestInfo × Next → Outcome
  end_with queries lookups (left, run_next) = record {
    ctx = left;
    queries = queries;
    lookups = lookups;
    next_runs = 1;
  }
  end_with queries lookups (left, resolve_cname flags) = record {
    ctx = left;
    queries = queries;
    lookups = lookups;
    next_runs = 0;
  }
  end_with queries lookups (left, query_engine flags url) = record {
    ctx = left;
    queries = queries;
    lookups = lookups;
    next_runs = 0;
  }

  abbrev after_second_reply :
      Option RequestInfo → List Gurl → ℕ → ShouldBlockRequestResult × Gurl → Outcome
  after_second_reply left queries lookups (answer, checked) =
      end_with (queries ++ checked ∷ []) lookups
        (on_should_block_request_result false (if_alive world.alive_at_second_reply left) answer)

  abbrev after_lookup : Option RequestInfo → List Gurl → ℕ → Next → Outcome
  after_lookup left queries lookups (query_engine flags url) =
      after_second_reply left queries lookups (ask_about flags (some url))
  after_lookup left queries lookups run_next = end_with queries lookups (left, run_next)
  after_lookup left queries lookups (resolve_cname flags) =
      end_with queries lookups (left, resolve_cname flags)

  abbrev after_first_reply : List Gurl → Option RequestInfo × Next → Outcome
  after_first_reply queries (left, resolve_cname flags) =
      let here = if_alive world.alive_at_lookup left in
      let (aliases, lookups) = look_up in
      after_lookup here queries lookups
        (use_cname_result replace_host here flags (on_complete aliases))
  after_first_reply queries (left, run_next) = end_with queries 0 (left, run_next)
  after_first_reply queries (left, query_engine flags url) =
      end_with queries 0 (left, query_engine flags url)

  -- OnBeforeURLRequestAdBlockTP, with the replies that it leads to.
  unfoldable pub on_before_url_request : Bool → Option ProxyConfig → Outcome
  unfolding on_should_block_request_result use_cname_result on_complete
  on_before_url_request cname_feature config =
      let (answer, checked) = ask_about no_flags none in
      after_first_reply (checked ∷ []) (
        on_should_block_request_result (should_check_uncloaked cname_feature ctx config)
          (if_alive world.alive_at_first_reply (some ctx)) answer)

  -- However the lookup and the replies turn out, and whenever the request goes away, the request
  -- is passed on exactly once.
  pub on_before_url_request_runs_next :
      (cname_feature : Bool) (config : Option ProxyConfig)
      → (on_before_url_request cname_feature config).next_runs ≡ 1
  unfolding on_before_url_request
  on_before_url_request_runs_next cname_feature config = ground arith

-- The URL of the second query, read off the lookup: the first alias, if it is not empty and not
-- the host of the request.
module _ (replace_host : Gurl → String → Gurl) (ctx : RequestInfo) where
  abbrev pub canonical_of : Option (List String) → Option Gurl
  canonical_of none = none
  canonical_of (some []) = none
  canonical_of (some (alias ∷ aliases)) =
      if is_empty alias || ctx.request_url.host =s= alias
      then none
      else some (replace_host ctx.request_url alias)

abbrev pub blocked_of : Option RequestInfo → Bool
blocked_of none = false
blocked_of (some ctx) = is_ad_blocked ctx.blocked_by

-- Nothing goes away while the replies are under way.
abbrev pub steady : Option (List String) → World
steady lookup = record {
  lookup = lookup;
  alive_at_first_reply = true;
  alive_at_lookup = true;
  alive_at_second_reply = true;
}

module _ {Client FilterSet Storage Policy : Type 0}
    (api : EngineApi Client FilterSet Storage Policy) (same_domain_or_host : Gurl → String → Bool)
    (parse : String → Gurl) (replace_host : Gurl → String → Gurl) (w : EngineWrapper Client Policy)
    (ctx : RequestInfo) (cname_feature : Bool) (config : Option ProxyConfig) where
  abbrev outcome : Option (List String) → Outcome
  outcome lookup =
      on_before_url_request api same_domain_or_host parse replace_host w (steady lookup) ctx
        cname_feature config

  abbrev first_blocks : Bool
  first_blocks = is_ad_blocked (first_answer api same_domain_or_host parse w ctx).blocked_by

  abbrev asked : Option Gurl → List Gurl
  asked none = []
  asked (some url) = url ∷ []

  -- A request that stays is blocked in the end exactly if the query about its own URL blocks it,
  -- or canonical names are looked at and the query about the URL with the canonical name, with
  -- the flags of the first query, blocks it.
  pub on_before_url_request_blocks :
      (lookup : Option (List String))
      → blocked_of (outcome lookup).ctx ≡ (
          first_blocks
          || (should_check_uncloaked cname_feature ctx config
              && second_blocks api same_domain_or_host parse w ctx
                  (canonical_of replace_host ctx lookup)))
  unfolding on_before_url_request
  on_before_url_request_blocks none = ground arith
  on_before_url_request_blocks (some []) = ground arith
  on_before_url_request_blocks (some (alias ∷ aliases)) = ground arith
