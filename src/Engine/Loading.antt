-- ===== src/Engine/Loading.antt =====
-- What the operations that change an engine do to it: ad_block_engine.cc, any number of them in
-- any order.
use chromium_adblock.Base.{
  ℕ, String, Bool, true, false, ◌≡◌, ◌⊎◌, if◌then◌else◌, refl, ◌∙◌, ap, Option, none, some, is_some,
  List, [], ◌∷◌, is_nil, not, ◌&&◌, arith,
}
use chromium_adblock.Web.{Gurl}
use chromium_adblock.Engine.{
  EngineApi, Engine, DatFileDataBuffer, use_resources, discard_regex, setup_discard_policy,
  on_filter_set_loaded, load_buffer, with_policy, update_ad_block_client, finish_load,
  on_dat_loaded, new,
}

-- The calls that change an engine.
pub data Operation (FilterSet Storage Policy : Type 0) : Type 0 where
  loads_filter_set : FilterSet → Storage → Operation FilterSet Storage Policy
  loads_buffer : Bool → DatFileDataBuffer → Storage → Operation FilterSet Storage Policy
  uses_resources : Storage → Operation FilterSet Storage Policy
  discards_regex : ℕ → Operation FilterSet Storage Policy
  sets_policy : Policy → Operation FilterSet Storage Policy

-- The policy that the calls set last.
module _ {FilterSet Storage Policy : Type 0} where
  abbrev pub policy_after : Operation FilterSet Storage Policy → Option Policy → Option Policy
  policy_after (sets_policy p) o = some p
  policy_after _ o = o

  abbrev pub last_policy : List (Operation FilterSet Storage Policy) → Option Policy → Option Policy
  last_policy [] o = o
  last_policy (c ∷ cs) o = last_policy cs (policy_after c o)

module _ {Client FilterSet Storage Policy : Type 0}
    (api : EngineApi Client FilterSet Storage Policy)
    (same_domain_or_host : Gurl → String → Bool) where
  unfoldable pub apply :
      Engine Client Policy → Operation FilterSet Storage Policy → Engine Client Policy
  unfolding use_resources discard_regex setup_discard_policy on_filter_set_loaded load_buffer
  apply e (loads_filter_set filter_set storage) =
      (on_filter_set_loaded api same_domain_or_host e filter_set storage).0
  apply e (loads_buffer deserialize dat storage) =
      (load_buffer api same_domain_or_host e deserialize dat storage).0
  apply e (uses_resources storage) = use_resources api same_domain_or_host e storage
  apply e (discards_regex id) = discard_regex api same_domain_or_host e id
  apply e (sets_policy policy) = setup_discard_policy api same_domain_or_host e policy

  unfoldable pub run :
      Engine Client Policy → List (Operation FilterSet Storage Policy) → Engine Client Policy
  run e [] = e
  run e (o ∷ os) = run (apply e o) os

  -- A buffer is loaded exactly if the crate builds a client from it, and, as a serialized engine,
  -- only if it is not empty. A load that fails leaves the engine as it was.
  pub load_buffer_outcome :
      (e : Engine Client Policy) (deserialize : Bool) (dat : DatFileDataBuffer) (storage : Storage)
      → let (after, loaded) = load_buffer api same_domain_or_host e deserialize dat storage in
        (loaded ≡ (
          if deserialize
          then not (is_nil dat) && is_some (api.deserialize dat)
          else is_some (api.engine_with_rules dat)))
        × ((loaded ≡ true) ⊎ (after ≡ e))
  unfolding load_buffer
  load_buffer_outcome e true [] storage = ground arith
  load_buffer_outcome e _ dat storage = ground arith

-- What the crate promises of `set_regex_discard_policy`: `policy_of` reads the policy in force.
pub record PolicyLaws {Client FilterSet Storage Policy : Type 0}
    (api : EngineApi Client FilterSet Storage Policy) (policy_of : Client → Option Policy)
    : Type 0 where
  pub of_set : (c : Client) (p : Policy) → policy_of (api.set_regex_discard_policy c p) ≡ some p
  pub of_use : (c : Client) (s : Storage) → policy_of (api.use_resource_storage c s) ≡ policy_of c
  pub of_discard : (c : Client) (n : ℕ) → policy_of (api.discard_regex c n) ≡ policy_of c

module _ {Client FilterSet Storage Policy : Type 0}
    (api : EngineApi Client FilterSet Storage Policy) (same_domain_or_host : Gurl → String → Bool)
    (policy_of : Client → Option Policy) (laws : PolicyLaws api policy_of) where
  abbrev pub InForce : Engine Client Policy → Type 0
  InForce e = (p : Policy) → e.regex_discard_policy ≡ some p → policy_of e.ad_block_client ≡ some p

  with_policy-of :
      (o : Option Policy) (c : Client) (p : Policy)
      → o ≡ some p
      → policy_of (with_policy api same_domain_or_host o c) ≡ some p
  with_policy-of none c p q = cc
  with_policy-of (some r) c p q = laws.of_set c r ∙ q

  finish_load-InForce :
      (e : Engine Client Policy) (made : Option Client) (storage : Storage)
      → InForce e
      → InForce (finish_load api same_domain_or_host e made storage).0
  unfolding update_ad_block_client
  finish_load-InForce e none storage h = h
  finish_load-InForce e (some c) storage h =
      λ p q. laws.of_use _ storage ∙ with_policy-of e.regex_discard_policy c p q

  on_dat_loaded-InForce :
      (e : Engine Client Policy) (dat : DatFileDataBuffer) (storage : Storage)
      → InForce e
      → InForce (on_dat_loaded api same_domain_or_host e dat storage).0
  unfolding on_dat_loaded
  on_dat_loaded-InForce e [] storage h = h
  on_dat_loaded-InForce e (b ∷ bs) storage h = finish_load-InForce e _ storage h

  apply-InForce :
      (e : Engine Client Policy) (o : Operation FilterSet Storage Policy)
      → InForce e
      → InForce (apply api same_domain_or_host e o)
  unfolding apply
  apply-InForce e (loads_filter_set filter_set storage) h =
      finish_load-InForce e (api.engine_from_filter_set filter_set) storage h
  apply-InForce e (loads_buffer true dat storage) h = on_dat_loaded-InForce e dat storage h
  apply-InForce e (loads_buffer false dat storage) h =
      finish_load-InForce e (api.engine_with_rules dat) storage h
  apply-InForce e (uses_resources storage) h = λ p q. laws.of_use _ _ ∙ h p q
  apply-InForce e (discards_regex id) h = λ p q. laws.of_discard _ _ ∙ h p q
  apply-InForce e (sets_policy policy) h = λ p q. laws.of_set _ _ ∙ q

  run-InForce :
      (e : Engine Client Policy) (os : List (Operation FilterSet Storage Policy))
      → InForce e
      → InForce (run api same_domain_or_host e os)
  unfolding run
  run-InForce e [] h = h
  run-InForce e (o ∷ os) h =
      run-InForce (apply api same_domain_or_host e o) os (apply-InForce e o h)

  apply-policy :
      (e : Engine Client Policy) (o : Operation FilterSet Storage Policy)
      → (apply api same_domain_or_host e o).regex_discard_policy
        ≡ policy_after o e.regex_discard_policy
  unfolding apply on_dat_loaded update_ad_block_client
  apply-policy e (loads_filter_set filter_set storage) = ground arith
  apply-policy e (loads_buffer true [] storage) = refl
  apply-policy e (loads_buffer true (b ∷ bs) storage) = ground arith
  apply-policy e (loads_buffer false dat storage) = ground arith
  apply-policy e (uses_resources storage) = refl
  apply-policy e (discards_regex id) = refl
  apply-policy e (sets_policy policy) = refl

  run-policy :
      (e : Engine Client Policy) (os : List (Operation FilterSet Storage Policy))
      → (run api same_domain_or_host e os).regex_discard_policy
        ≡ last_policy os e.regex_discard_policy
  unfolding run
  run-policy e [] = refl
  run-policy e (o ∷ os) =
      run-policy (apply api same_domain_or_host e o) os ∙ ap (last_policy os) (apply-policy e o)

  -- Whatever an engine goes through from its construction on, the discard policy that was set last
  -- governs the client that it has, also after loads that replace the client. The crate is assumed
  -- to keep a policy over a change of resources and over the discarding of a regex.
  pub run-keeps_policy :
      (is_default : Bool) (os : List (Operation FilterSet Storage Policy)) (p : Policy)
      → last_policy os none ≡ some p
      → policy_of
          (run api same_domain_or_host (new api same_domain_or_host is_default) os).ad_block_client
        ≡ some p
  unfolding new
  run-keeps_policy is_default os p q =
      run-InForce (new api same_domain_or_host is_default) os (λ r e. cc) p
        (run-policy (new api same_domain_or_host is_default) os ∙ q)
