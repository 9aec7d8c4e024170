-- ===== src/Filters/Notices.antt =====
-- When a change of the filter lists is loaded (components/brave_shields/core/browser/
-- ad_block_filters_provider_manager.cc).
use chromium_adblock.Base.{
  all-append, ℕ, zero, suc, ◌-◌, Bool, true, false, List, [], ◌∷◌, ◌++◌, ◌≡◌, refl, not, ◌&&◌, all,
  is_nil, length, arith, if◌then◌else◌,
}
use chromium_adblock.Filters.{
  notify_each, FilterSetLoad, Manager, get_providers, is_suppressed, clear_suppressed, same_engine,
  source_on_changed, are_all_providers_initialized, maybe_notify_observer, force_notify_observer,
  on_changed, notify_observers, maybe_consume,
}

-- A load of the lists of engine `b`, with providers that there are, and that are initialized.
abbrev pub is_ready_load : (ℕ → Bool) → Bool → FilterSetLoad → Bool
is_ready_load ready b (engine, providers) =
    same_engine b engine && (not (is_nil providers) && all ready providers)

-- Notices for an engine: a change of a list, or a failure of the cached engine.
pub data Notice : Type 0 where
  list_changed cache_failed : Notice

abbrev pub copies : ℕ → FilterSetLoad → List FilterSetLoad
copies zero l = []
copies (suc n) l = l ∷ copies n l

module _ (ready : ℕ → Bool) where
  source_on_changed-ready :
      (m : Manager) (o b : Bool)
      → are_all_providers_initialized ready m b ≡ true
      → all (is_ready_load ready b) (source_on_changed m o b) ≡ true
  unfolding source_on_changed are_all_providers_initialized
  source_on_changed-ready m o true h = ground arith
  source_on_changed-ready m o false h = ground arith

  abbrev pub take_notice : Manager → Bool → Notice → Manager × List FilterSetLoad
  take_notice m b list_changed = on_changed ready m b
  take_notice m b cache_failed = force_notify_observer ready m b b

  abbrev pub take_notices : Manager → Bool → List Notice → Manager × List FilterSetLoad
  take_notices m b [] = (m, [])
  take_notices m b (n ∷ ns) =
      let (m', loads) = take_notice m b n in
      let (m'', more) = take_notices m' b ns in (m'', loads ++ more)

  take_notice-heeded :
      (m : Manager) (b : Bool) (n : Notice)
      → m.observers ≡ true ∷ false ∷ []
      → are_all_providers_initialized ready m b ≡ true
      → is_suppressed m b ≡ false
      → take_notice m b n ≡ (m, (b, get_providers m b) ∷ [])
  unfolding on_changed force_notify_observer notify_observers source_on_changed maybe_consume
      are_all_providers_initialized
  take_notice-heeded m true list_changed obs all_ready s = rw (all_ready, s, obs)
  take_notice-heeded m false list_changed obs all_ready s = rw (all_ready, s, obs)
  take_notice-heeded m true cache_failed obs all_ready s = rw (s, all_ready)
  take_notice-heeded m false cache_failed obs all_ready s = rw (s, all_ready)

  take_notice-consumed :
      (m : Manager) (b : Bool) (n : Notice)
      → are_all_providers_initialized ready m b ≡ true
      → is_suppressed m b ≡ true
      → take_notice m b n ≡ (clear_suppressed m b, [])
  unfolding on_changed force_notify_observer maybe_consume
  take_notice-consumed m b list_changed all_ready s = rw (all_ready, s)
  take_notice-consumed m b cache_failed all_ready s = rw s

  take_notices-heeded :
      (m : Manager) (b : Bool) (ns : List Notice)
      → m.observers ≡ true ∷ false ∷ []
      → are_all_providers_initialized ready m b ≡ true
      → is_suppressed m b ≡ false
      → take_notices m b ns ≡ (m, copies (length ns) (b, get_providers m b))
  take_notices-heeded m b [] obs all_ready s = refl
  take_notices-heeded m b (n ∷ ns) obs all_ready s =
      rw (take_notice-heeded m b n obs all_ready s, take_notices-heeded m b ns obs all_ready s)

  suc-minus : (n : ℕ) → suc n - 1 ≡ n
  suc-minus n = omega arith

  take_notices-cases :
      (m : Manager) (b : Bool) (ns : List Notice) (suppressed : Bool)
      → is_suppressed m b ≡ suppressed
      → m.observers ≡ true ∷ false ∷ []
      → are_all_providers_initialized ready m b ≡ true
      → take_notices m b ns ≡ (
        (if suppressed && not (is_nil ns) then clear_suppressed m b else m),
        copies (if suppressed then length ns - 1 else length ns) (b, get_providers m b),
      )
  unfolding are_all_providers_initialized
  take_notices-cases m b ns false s obs all_ready = take_notices-heeded m b ns obs all_ready s
  take_notices-cases m b [] true s obs all_ready = refl
  take_notices-cases m true (n ∷ ns) true s obs all_ready =
      rw (take_notice-consumed m true n all_ready s, suc-minus (length ns))
        (take_notices-heeded (clear_suppressed m true) true ns obs all_ready refl)
  take_notices-cases m false (n ∷ ns) true s obs all_ready =
      rw (take_notice-consumed m false n all_ready s, suc-minus (length ns))
        (take_notices-heeded (clear_suppressed m false) false ns obs all_ready refl)

  -- Where the service observes both engines and all providers of an engine are initialized, each
  -- notice for that engine, a changed list or a failed cache, loads all its lists once, in
  -- whatever order the notices come, but for the first one if the startup notification is still
  -- suppressed: that one loads nothing, and ends the suppression.
  pub take_notices-copies :
      (m : Manager) (b : Bool) (ns : List Notice)
      → m.observers ≡ true ∷ false ∷ []
      → are_all_providers_initialized ready m b ≡ true
      → take_notices m b ns ≡ (
        (if is_suppressed m b && not (is_nil ns) then clear_suppressed m b else m),
        copies (if is_suppressed m b then length ns - 1 else length ns) (b, get_providers m b),
      )
  take_notices-copies m b ns obs all_ready =
      take_notices-cases m b ns (is_suppressed m b) refl obs all_ready

  maybe-ready :
      (m : Manager) (o b initialized : Bool)
      → are_all_providers_initialized ready m b ≡ initialized
      → all (is_ready_load ready b) (maybe_notify_observer ready m o b) ≡ true
  unfolding maybe_notify_observer
  maybe-ready m o b false h = rw h
  maybe-ready m o b true h = rw h (source_on_changed-ready m o b h)

  force-ready :
      (m : Manager) (o b initialized suppressed : Bool)
      → are_all_providers_initialized ready m b ≡ initialized
      → is_suppressed m b ≡ suppressed
      → all (is_ready_load ready b) (force_notify_observer ready m o b).1 ≡ true
  unfolding force_notify_observer
  force-ready m o b initialized true h s = rw s
  force-ready m o b false false h s = simp (s, h)
  force-ready m o b true false h s = simp (s, h) (source_on_changed-ready m o b h)

  notify_each-ready :
      (m : Manager) (b : Bool) (os : List Bool)
      → are_all_providers_initialized ready m b ≡ true
      → all (is_ready_load ready b) (notify_each m b os) ≡ true
  notify_each-ready m b [] h = refl
  notify_each-ready m b (o ∷ os) h =
      all-append (is_ready_load ready b) (source_on_changed m o b) (notify_each m b os)
        (source_on_changed-ready m o b h) (notify_each-ready m b os h)

  changed-ready :
      (m : Manager) (b initialized suppressed : Bool)
      → are_all_providers_initialized ready m b ≡ initialized
      → is_suppressed m b ≡ suppressed
      → all (is_ready_load ready b) (on_changed ready m b).1 ≡ true
  unfolding on_changed
  changed-ready m b false suppressed h s = rw h
  changed-ready m b true true h s = rw (h, s)
  changed-ready m b true false h s = rw (h, s) (notify_each-ready m b m.observers h)

  -- MaybeNotifyObserver, ForceNotifyObserver and OnChanged have filter lists loaded only for the
  -- engine they are called for, and only if it has providers and all of them are initialized.
  pub notices-ready :
      (m : Manager) (o b : Bool)
      → (all (is_ready_load ready b) (maybe_notify_observer ready m o b) ≡ true)
        × (all (is_ready_load ready b) (force_notify_observer ready m o b).1 ≡ true)
        × (all (is_ready_load ready b) (on_changed ready m b).1 ≡ true)
  notices-ready m o b =
      (maybe-ready m o b _ refl, force-ready m o b _ _ refl refl, changed-ready m b _ _ refl refl)
