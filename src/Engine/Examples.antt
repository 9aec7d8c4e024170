-- ===== src/Engine/Examples.antt =====
-- A small crate, and the properties of an engine at concrete inputs.
use chromium_adblock.Base.{
  ℕ, String, Bool, true, false, ◌≡◌, refl, Option, none, some, List, [], ◌∷◌, ◌=s=◌, is_nil,
  if◌then◌else◌,
}
use chromium_adblock.Web.{Gurl}
use chromium_adblock.Engine.{EngineApi, OptionalString, BlockerResult, Query, new}
use chromium_adblock.Engine.Loading.{
  Operation, loads_buffer, uses_resources, sets_policy, discards_regex, PolicyLaws, run,
  run-keeps_policy,
}

-- A client that blocks one host, and has a policy and a storage.
pub record ToyClient : Type 0 where
  pub blocked : String
  pub policy : Option ℕ
  pub storage : ℕ

abbrev pub no_text : OptionalString
no_text = record { has_value = false; value = "" }

abbrev pub toy_matches : ToyClient → Query → BlockerResult
toy_matches c q = record {
  matched = q.hostname =s= c.blocked;
  important = false;
  has_exception = false;
  redirect = no_text;
  rewritten_url = no_text;
}

abbrev pub toy_build : List ℕ → Option ToyClient
toy_build dat =
    if is_nil dat then none else some (record { blocked = "ads.test"; policy = none; storage = 0 })

abbrev pub toy : EngineApi ToyClient (List ℕ) ℕ ℕ
toy = record {
  new_engine = record { blocked = ""; policy = none; storage = 0 };
  matches = toy_matches;
  csp_directives = λ c u h s t p. if h =s= c.blocked then "script-src 'none'" else "";
  use_resource_storage = λ c s. record c { storage = s };
  set_regex_discard_policy = λ c p. record c { policy = some p };
  discard_regex = λ c n. c;
  engine_from_filter_set = toy_build;
  engine_with_rules = toy_build;
  deserialize = toy_build;
  serialize = λ c. 1 ∷ [];
  hidden_class_id_selectors = λ c classes ids exceptions. some classes;
}

abbrev pub toy_same_domain : Gurl → String → Bool
toy_same_domain u h = u.host =s= h

abbrev toy_laws : PolicyLaws toy (λ c. c.policy)
toy_laws = record { of_set = λ c p. refl; of_use = λ c s. refl; of_discard = λ c n. refl }

abbrev history : List (Operation (List ℕ) ℕ ℕ)
history =
    sets_policy 5
    ∷ loads_buffer false (1 ∷ []) 3
    ∷ discards_regex 2
    ∷ loads_buffer true (2 ∷ []) 4
    ∷ uses_resources 9
    ∷ []

run-keeps_policy_example :
    (run toy toy_same_domain (new toy toy_same_domain false) history).ad_block_client.policy
    ≡ some 5
run-keeps_policy_example =
    run-keeps_policy toy toy_same_domain (λ c. c.policy) toy_laws false history 5 refl
