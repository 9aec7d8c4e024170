-- ===== src/Subscriptions/Timer.antt =====
-- What the update timer has downloaded (components/brave_shields/content/browser/
-- ad_block_subscription_service_manager.cc).
use mathlib.Core.List.{append-nil, append_assoc}
use chromium_adblock.Base.{
  ℕ, ◌+◌, ◌*◌, ◌==◌, leb, String, Bool, true, false, not, List, [], ◌∷◌, ◌++◌, ◌≡◌, refl, sym, ap,
  ◌∙◌, arith, if◌then◌else◌,
}
use chromium_adblock.Base.Dict.{Dict}
use chromium_adblock.Web.{Gurl}
use chromium_adblock.Subscriptions.Info.{Value, SubscriptionInfo, build_info_from_dict}
use chromium_adblock.Subscriptions.Manager.{
  Manager, value_or_false, start_download, on_update_timer, start_due, start_if, is_due,
}

module _ (time_to_value : ℕ → Value) (convert : Dict Value → SubscriptionInfo)
    (parse : String → Gurl) where
  -- When a list is due: an enabled one, at once where the last attempt failed, and else when its
  -- hours, in microseconds, have gone by since the attempt.
  abbrev pub is_wanted : SubscriptionInfo → ℕ → Bool
  is_wanted info now =
      if info.enabled
      then (if info.last_update_attempt == info.last_successful_update_attempt
          then leb (info.last_update_attempt + info.expires * 3600000000) now
          else true)
      else false

  is_due-is_wanted :
      (info : SubscriptionInfo) (now : ℕ)
      → is_due time_to_value convert info now ≡ is_wanted info now
  is_due-is_wanted info now = ground arith

  -- The downloads that are due, in the order of the preference.
  abbrev pub due_downloads : Dict (Dict Value) → ℕ → List (Gurl × Bool)
  due_downloads [] now = []
  due_downloads ((key, dict) ∷ entries) now =
      if is_wanted (build_info_from_dict convert (parse key) dict) now
      then (parse key, false) ∷ due_downloads entries now
      else due_downloads entries now

  start_if-available :
      (due : Bool) (m : Manager) (url : Gurl)
      → value_or_false m.download_manager ≡ true
      → ((start_if due m url).downloads ≡ m.downloads ++ (if due then (url, false) ∷ [] else []))
        × ((start_if due m url).download_manager ≡ m.download_manager)
  unfolding start_download
  start_if-available true m url e = (ground arith, ground arith)
  start_if-available false m url e = (sym (append-nil m.downloads), refl)

  start_if-gone :
      (due : Bool) (m : Manager) (url : Gurl)
      → value_or_false m.download_manager ≡ false
      → start_if due m url ≡ m
  unfolding start_download
  start_if-gone true m url e = ground arith
  start_if-gone false m url e = refl

  cons_if :
      (due : Bool) (x : Gurl × Bool) (xs : List (Gurl × Bool))
      → (if due then x ∷ [] else []) ++ xs ≡ (if due then x ∷ xs else xs)
  cons_if true x xs = refl
  cons_if false x xs = refl

  start_due-available :
      (entries : Dict (Dict Value)) (m : Manager) (now : ℕ)
      → value_or_false m.download_manager ≡ true
      → (start_due time_to_value convert parse entries m now).downloads
        ≡ m.downloads ++ due_downloads entries now
  start_due-available [] m now e = sym (append-nil m.downloads)
  start_due-available ((key, dict) ∷ entries) m now e =
      let due = is_due time_to_value convert (build_info_from_dict convert (parse key) dict) now in
      let one = start_if-available due m (parse key) e in
      start_due-available entries (start_if due m (parse key)) now (ap value_or_false one.1 ∙ e)
      ∙ ap (λ ds. ds ++ due_downloads entries now) one.0
      ∙ append_assoc m.downloads (if due then (parse key, false) ∷ [] else [])
          (due_downloads entries now)
      ∙ ap (λ ds. m.downloads ++ ds) (cons_if due (parse key, false) (due_downloads entries now))
      ∙ ap
          (λ wanted.
            m.downloads
            ++ (if wanted
                then (parse key, false) ∷ due_downloads entries now
                else due_downloads entries now))
          (is_due-is_wanted (build_info_from_dict convert (parse key) dict) now)

  start_due-gone :
      (entries : Dict (Dict Value)) (m : Manager) (now : ℕ)
      → value_or_false m.download_manager ≡ false
      → start_due time_to_value convert parse entries m now ≡ m
  start_due-gone [] m now e = refl
  start_due-gone ((key, dict) ∷ entries) m now e =
      let due = is_due time_to_value convert (build_info_from_dict convert (parse key) dict) now in
      let one = start_if-gone due m (parse key) e in
      start_due-gone entries (start_if due m (parse key)) now
        (ap (λ x. value_or_false x.download_manager) one ∙ e)
      ∙ one

  on_update_timer-here :
      (m : Manager) (now : ℕ)
      → m.has_local_state ≡ true
      → on_update_timer time_to_value convert parse m now
        ≡ start_due time_to_value convert parse m.prefs (record m { subscriptions = m.prefs }) now
  unfolding on_update_timer
  on_update_timer-here m now has =
      ap
        (λ here.
          if not here
          then m
          else start_due time_to_value convert parse m.prefs (record m { subscriptions = m.prefs })
              now)
        has

  on_update_timer-cases :
      (m : Manager) (now : ℕ) (available : Bool)
      → m.has_local_state ≡ true
      → value_or_false m.download_manager ≡ available
      → (on_update_timer time_to_value convert parse m now).downloads
        ≡ m.downloads ++ (if available then due_downloads m.prefs now else [])
  on_update_timer-cases m now true has e =
      ap (λ x. x.downloads) (on_update_timer-here m now has)
      ∙ start_due-available m.prefs (record m { subscriptions = m.prefs }) now e
  on_update_timer-cases m now false has e =
      ap (λ x. x.downloads)
        (on_update_timer-here m now has
          ∙ start_due-gone m.prefs (record m { subscriptions = m.prefs }) now e)
      ∙ sym (append-nil m.downloads)

  -- With a local state the timer starts the downloads, none of them as from the user, of exactly
  -- the subscriptions of the preference that are enabled and whose last attempt failed or is at least
  -- as many hours old as they say, in their order, if the download manager is there and available,
  -- and none else.
  pub on_update_timer_downloads :
      (m : Manager) (now : ℕ)
      → m.has_local_state ≡ true
      → (on_update_timer time_to_value convert parse m now).downloads
        ≡ m.downloads
          ++ (if value_or_false m.download_manager then due_downloads m.prefs now else [])
  on_update_timer_downloads m now has = on_update_timer-cases m now _ has refl
