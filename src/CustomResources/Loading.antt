-- ===== src/CustomResources/Loading.antt =====
-- The loads of AdBlockCustomResourceProvider that are under way (components/brave_shields/core/
-- browser/ad_block_custom_resource_provider.cc): each waits for the default provider and then for the
-- value store, and the user's changes come in between. The value store answers in the order in which
-- it is asked; the default provider has the storage `d`, and answers with it.

use chromium_adblock.Base.{
  ℕ, suc, ◌<◌, ◌≤◌, ltb, String, Bool, true, false, Option, none, some, List, [], ◌∷◌, ◌++◌, ◌≡◌,
  refl, sym, ap, ◌∙◌, subst, ◌⊎◌, inl, inr, length, length-append, arith, if◌then◌else◌,
}
use chromium_adblock.Base.Dict.{Dict}
use chromium_adblock.CustomResources.{Resource, Provider}
use chromium_adblock.CustomResources.Runs.{Operation, run}
use chromium_adblock.CustomResources.Merge.{
  on_custom_resources_loaded, extend_all, jsons, on_custom-extend_all,
}
use chromium_adblock.CustomResources.Changed.{Changed, run-Changed}

-- `answered` counts the loads that the default provider has answered; `asked` are the GetKeys under
-- way, each with the default storage that it is to extend and the store as it was then.
pub record Loading (Storage : Type 0) : Type 0 where
  pub provider : Provider Storage
  pub answered : ℕ
  pub asked : List (Storage × Dict (List Resource))

pub data LoadEvent : Type 0 where
  -- the user's change
  changes : Operation → LoadEvent
  -- a client calls LoadResources
  loads : LoadEvent
  -- the default provider answers a load, or tells of its resources on its own
  default_answers default_notifies : LoadEvent
  -- the value store answers the oldest GetKeys
  store_answers : LoadEvent

module _ {Storage : Type 0} (extend_resource_storage : Storage → String → Storage)
    (write_json : List Resource → Option String) (is_string_ascii : String → Bool)
    (d : Storage) where
  abbrev pub ask_default : Option Storage → Provider Storage → Provider Storage
  ask_default none p = record p { reloads = suc p.reloads }
  ask_default (some cached) p = p

  -- LoadResources: from the cache, or from the default provider.
  unfoldable pub load_resources : Loading Storage → Loading Storage
  load_resources l = record l { provider = ask_default l.provider.cached_storage l.provider }

  -- OnDefaultResourcesLoaded, up to GetKeys.
  abbrev pub get_keys : Loading Storage → Loading Storage
  get_keys l = record l { asked = l.asked ++ (d, l.provider.store) ∷ [] }

  abbrev reset_cache : Loading Storage → Loading Storage
  reset_cache l = record l { provider = record l.provider { cached_storage = none } }

  abbrev pub answer_oldest :
      List (Storage × Dict (List Resource)) → Loading Storage → Loading Storage
  answer_oldest [] l = l
  answer_oldest ((storage, entries) ∷ later) l = record l {
    provider =
        (on_custom_resources_loaded extend_resource_storage write_json l.provider storage
          entries).0;
    asked = later;
  }

  unfoldable pub load_step : LoadEvent → Loading Storage → Loading Storage
  unfolding load_resources
  load_step (changes op) l = record l { provider = run is_string_ascii (op ∷ []) l.provider }
  load_step loads l = load_resources l
  load_step default_answers l =
      if ltb l.answered l.provider.reloads
      then get_keys (record l { answered = suc l.answered })
      else l
  load_step default_notifies l = get_keys (reset_cache l)
  load_step store_answers l = answer_oldest l.asked l

  unfoldable pub run_loads : List LoadEvent → Loading Storage → Loading Storage
  run_loads [] l = l
  run_loads (event ∷ events) l = run_loads events (load_step event l)

  abbrev pub UpToDate : Provider Storage → Type 0
  UpToDate p =
      (p.cached_storage ≡ none)
      ⊎ (p.cached_storage
          ≡ some (
              extend_all extend_resource_storage write_json d
                (jsons extend_resource_storage write_json p.store)))

  -- The cache is up to date, the newest GetKeys has the store as it is, or the default provider has
  -- a load to answer.
  abbrev pub Will : Loading Storage → Type 0
  Will l =
      ((l.asked ≡ []) × UpToDate l.provider)
      ⊎ (((before : List (Storage × Dict (List Resource))) × (l.asked
              ≡ before ++ (d, l.provider.store) ∷ []))
          ⊎ (l.answered < l.provider.reloads))

  abbrev pub Inv : Loading Storage → Type 0
  Inv l = (l.answered ≤ l.provider.reloads) × Will l

  abbrev head_or : {A : Type 0} → A → List A → A
  head_or other [] = other
  head_or other (x ∷ xs) = x

  abbrev tail_of : {A : Type 0} → List A → List A
  tail_of [] = []
  tail_of (x ∷ xs) = xs

  -- The cache is written as the oldest GetKeys had it.
  abbrev cached_by : Loading Storage → Storage × Dict (List Resource) → Provider Storage
  cached_by l (storage, entries) = record l.provider {
    cached_storage = some (
        extend_all extend_resource_storage write_json storage
          (jsons extend_resource_storage write_json entries));
  }

  newest-Will :
      (l : Loading Storage) (oldest : Storage × Dict (List Resource))
      → (later before : List (Storage × Dict (List Resource)))
      → oldest ∷ later ≡ before ++ (d, l.provider.store) ∷ []
      → Will (record l { provider = cached_by l oldest; asked = later })
  newest-Will l oldest later [] split = inl (
    ap tail_of split,
    inr (
        ap
          (λ pair. some (
            extend_all extend_resource_storage write_json pair.0
              (jsons extend_resource_storage write_json pair.1)))
          (ap (head_or oldest) split)),
  )
  newest-Will l oldest later (first ∷ before) split = inr (inl (before, ap tail_of split))

  answer-Will :
      (l : Loading Storage) (oldest : Storage × Dict (List Resource))
      → (later : List (Storage × Dict (List Resource))) → l.asked ≡ oldest ∷ later
      → Will l
      → Will (record l { provider = cached_by l oldest; asked = later })
  answer-Will l oldest later e will = elim will [
    | inl (none_asked, up_to_date) ↦ ground (arith, e, none_asked)
    | inr will ↦ elim will [
      | inl (before, split) ↦ newest-Will l oldest later before (sym e ∙ split)
      | inr waiting ↦ inr (inr waiting)
    ]
  ]

  pub load_step-Inv : (event : LoadEvent) (l : Loading Storage) → Inv l → Inv (load_step event l)
  unfolding load_step load_resources
  load_step-Inv (changes op) l (most, will) = by_change (run-Changed is_string_ascii op l.provider)
    where
      by_change :
          Changed is_string_ascii l.provider (run is_string_ascii (op ∷ []) l.provider)
          → Inv (record l { provider = run is_string_ascii (op ∷ []) l.provider })
      by_change (inl same) = subst (λ p. Inv (record l { provider = p })) (sym same) (most, will)
      by_change (inr more) = (omega arith, inr (inr (omega arith)))
  load_step-Inv loads l (most, will) = by_cache l.provider.cached_storage refl
    where
      by_cache :
          (cached : Option Storage)
          → l.provider.cached_storage ≡ cached
          → Inv (record l { provider = ask_default cached l.provider })
      by_cache none e = (omega arith, inr (inr (omega arith)))
      by_cache (some cached) e = (most, will)
  load_step-Inv default_answers l (most, will) = by_waiting (ltb l.answered l.provider.reloads) refl
    where
      by_waiting :
          (waiting : Bool)
          → ltb l.answered l.provider.reloads ≡ waiting
          → Inv (if waiting then get_keys (record l { answered = suc l.answered }) else l)
      by_waiting true e = (ground arith, inr (inl (l.asked, refl)))
      by_waiting false e = (most, will)
  load_step-Inv default_notifies l (most, will) = (most, inr (inl (l.asked, refl)))
  load_step-Inv store_answers l (most, will) = by_asked l.asked refl
    where
      by_asked :
          (asked : List (Storage × Dict (List Resource)))
          → l.asked ≡ asked
          → Inv (answer_oldest asked l)
      by_asked [] e = (most, will)
      by_asked ((storage, entries) ∷ later) e =
          subst (λ p. Inv (record l { provider = p; asked = later }))
            (sym (
              ap (λ r. r.0)
                (on_custom-extend_all extend_resource_storage write_json l.provider storage
                  entries)))
            (most, answer-Will l (storage, entries) later e will)

  run_loads-Inv : (events : List LoadEvent) (l : Loading Storage) → Inv l → Inv (run_loads events l)
  unfolding run_loads
  run_loads-Inv [] l inv = inv
  run_loads-Inv (event ∷ events) l inv =
      run_loads-Inv events (load_step event l) (load_step-Inv event l inv)

  idle-UpToDate :
      (l : Loading Storage)
      → Inv l
      → l.answered ≡ l.provider.reloads
      → l.asked ≡ []
      → UpToDate l.provider
  idle-UpToDate l (most, will) answered none_asked = elim will [
    | inl (none_left, up_to_date) ↦ up_to_date
    | inr will ↦ elim will [
      | inl (before, split) ↦
          absurd (omega (arith, ap length (sym none_asked ∙ split), length-append before _))
      | inr waiting ↦ absurd (omega arith)
    ]
  ]

  -- From a provider without a load under way, whose cached storage is none or up to date, any
  -- changes, calls of LoadResources, answers of the default provider and of the value store, late
  -- ones included, come to such a storage again, as soon as no load is under way: it is none, or
  -- the default storage `d` extended by the custom resources as they are then.
  pub run_loads-up_to_date :
      (events : List LoadEvent) (l : Loading Storage)
      → l.answered ≡ l.provider.reloads
      → l.asked ≡ []
      → (l.provider.cached_storage ≡ none)
        ⊎ (l.provider.cached_storage
            ≡ some (
                extend_all extend_resource_storage write_json d
                  (jsons extend_resource_storage write_json l.provider.store)))
      → (run_loads events l).answered ≡ (run_loads events l).provider.reloads
      → (run_loads events l).asked ≡ []
      → ((run_loads events l).provider.cached_storage ≡ none)
        ⊎ ((run_loads events l).provider.cached_storage
            ≡ some (
                extend_all extend_resource_storage write_json d
                  (jsons extend_resource_storage write_json (run_loads events l).provider.store)))
  run_loads-up_to_date events l answered none_asked up_to_date =
      idle-UpToDate (run_loads events l)
        (run_loads-Inv events l (omega arith, inl (none_asked, up_to_date)))
