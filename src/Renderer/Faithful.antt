-- ===== src/Renderer/Faithful.antt =====
-- What holds of a frame and its handler at any time
-- (components/cosmetic_filters/renderer/cosmetic_filters_js_render_frame_observer.cc).
use mathlib.Core.List.{append-nil, append_assoc}
use chromium_adblock.Base.{
  Bool, true, false, ◌≡◌, refl, sym, ap, ◌∙◌, subst, Option, some, List, [], ◌∷◌, ◌++◌, All, ◌⊎◌,
  inl, inr,
}
use chromium_adblock.Web.{Gurl}
use chromium_adblock.Renderer.Resources.{PageResources, strings_in}
use chromium_adblock.Renderer.Handler.{JsHandler}
use chromium_adblock.Renderer.Frame.{FrameObserver, pages_applied}
use chromium_adblock.Renderer.Kept.{exceptions_of, KeepsPage}
use chromium_adblock.Renderer.Queries.{IsQueue}

pub exceptions_of-append :
    (a b : List (Gurl × PageResources))
    → exceptions_of (a ++ b) ≡ exceptions_of a ++ exceptions_of b
exceptions_of-append [] b = refl
exceptions_of-append ((url, resources) ∷ a) b =
    ap (λ more. strings_in resources.exceptions ++ more) (exceptions_of-append a b)
    ∙ sym (append_assoc (strings_in resources.exceptions) (exceptions_of a) (exceptions_of b))

module _ (answer : Gurl → PageResources) (sync_load : Bool) where
  abbrev pub IsFor : Gurl × PageResources → Type 0
  IsFor page = page.1 ≡ answer page.0

  -- The resources that rules were applied with are those of the page; `ready_` is signalled only
  -- when the handler has those of its page and no answer is to come; and the handler's exceptions
  -- are those of the pages.
  pub record IsFaithful (f : FrameObserver) : Type 0 where
    pub applied : All IsFor f.applied
    pub exceptions : f.handler.exceptions ≡ exceptions_of f.applied
    pub queue : IsQueue f.navigation f.handler.url f.pending
    pub quiet : (sync_load ≡ false) ⊎ (f.pending ≡ [])
    pub ready :
        (f.is_signaled ≡ false)
        ⊎ ((f.pending ≡ []) × (f.handler.resources_dict ≡ some (answer f.handler.url)))

  -- An operation of the handler that leaves its page alone.
  pub with_handler-IsFaithful :
      (f : FrameObserver) (h : JsHandler)
      → KeepsPage [] f.handler h
      → IsFaithful f
      → IsFaithful (record f { handler = h })
  with_handler-IsFaithful f h keeps faithful = record {
    applied = faithful.applied;
    exceptions = keeps.exceptions ∙ append-nil f.handler.exceptions ∙ faithful.exceptions;
    queue = subst (λ url. IsQueue f.navigation url f.pending) (sym keeps.url) faithful.queue;
    quiet = faithful.quiet;
    ready = elim faithful.ready [
      | inl unready ↦ inl unready
      | inr (none_left, known) ↦
          inr (
            none_left,
            keeps.resources_dict ∙ known ∙ ap (λ url. some (answer url)) (sym keeps.url),
          )
    ];
  }

  pub All-append :
      (a b : List (Gurl × PageResources)) → All IsFor a → All IsFor b → All IsFor (a ++ b)
  All-append [] b p q = q
  All-append (page ∷ a) b (p, ps) q = (p, All-append a b ps q)

  pub pages_applied-IsFor :
      (is_provisional : Bool) (url : Gurl) (dict : Option PageResources)
      → dict ≡ some (answer url)
      → All IsFor (pages_applied is_provisional url dict)
  pages_applied-IsFor is_provisional url dict known =
      subst (λ dict. All IsFor (pages_applied is_provisional url dict)) (sym known)
        (by_provisional is_provisional)
    where
      by_provisional :
          (provisional : Bool) → All IsFor (pages_applied provisional url (some (answer url)))
      by_provisional true = tt
      by_provisional false = (refl, tt)
