-- ===== src/Renderer/Queries.antt =====
-- The queries of a frame that wait, in the order they were asked
-- (components/cosmetic_filters/renderer/cosmetic_filters_js_render_frame_observer.cc).
use chromium_adblock.Base.{
  ℕ, suc, ◌<◌, ◌≡◌, refl, sym, subst, List, [], ◌∷◌, ◌++◌, ◌⊎◌, inl, inr, arith,
}
use chromium_adblock.Web.{Gurl}
use chromium_adblock.Renderer.Frame.{PendingQuery}

-- All but the last query are of earlier navigations; the last is of an earlier one, too, or is
-- the one for this page.
abbrev pub IsQueue : ℕ → Gurl → List PendingQuery → Type 0
IsQueue n url [] = Unit
IsQueue n url (query ∷ later) =
    ((query.navigation < n) × IsQueue n url later)
    ⊎ (((query.navigation ≡ n) × (query.url ≡ url)) × (later ≡ []))

-- After another navigation every query is late.
pub commit-IsQueue :
    (n : ℕ) (url url' : Gurl) (pending : List PendingQuery)
    → IsQueue n url pending
    → IsQueue (suc n) url' pending
commit-IsQueue n url url' [] q = tt
commit-IsQueue n url url' (query ∷ later) (inl (old, rest)) =
    inl (omega arith, commit-IsQueue n url url' later rest)
commit-IsQueue n url url' (query ∷ later) (inr ((now, at), last)) =
    inl (omega (arith, now), subst (IsQueue (suc n) url') (sym last) tt)

-- And the query for the new page is the last.
pub ask-IsQueue :
    (n : ℕ) (url url' : Gurl) (pending : List PendingQuery)
    → IsQueue n url pending
    → IsQueue (suc n) url' (pending ++ record { navigation = suc n; url = url' } ∷ [])
ask-IsQueue n url url' [] q = inr ((refl, refl), refl)
ask-IsQueue n url url' (query ∷ later) (inl (old, rest)) =
    inl (omega arith, ask-IsQueue n url url' later rest)
ask-IsQueue n url url' (query ∷ later) (inr ((now, at), last)) = inl (
  omega (arith, now),
  subst (λ rest. IsQueue (suc n) url' (rest ++ record { navigation = suc n; url = url' } ∷ []))
      (sym last) (inr ((refl, refl), refl)),
)
