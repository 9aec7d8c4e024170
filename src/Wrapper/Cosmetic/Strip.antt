-- ===== src/Wrapper/Cosmetic/Strip.antt =====
-- Which filters StripProceduralFilters leaves, and on which entries its loop does not end.
use chromium_adblock.Base.{
  ℕ, zero, suc, String, Bool, true, false, not, ◌&&◌, ◌==◌, ◌=s=◌, ◌≡◌, refl, ap, ◌∙◌, Bool-cases,
  Option-cases, inl, inr, Option, none, some, List, [], ◌∷◌, ◌++◌, any, select, length, All, arith,
  if◌then◌else◌,
}
use mathlib.Core.List.{append_assoc, append-nil}
use chromium_adblock.Wrapper.Cosmetic.{
  stay, advance, remove, visit_selector, visit_parsed, strip_list, Entry, CosmeticResources,
  Operator, ProceduralFilter, finished, out_of_fuel, visit, strip_loop, strip_procedural_filters,
}

-- An operator that makes a filter procedural: a dictionary whose `type` is a text other than
-- `css-selector`. One without such a type, or that is no dictionary, does not.
abbrev pub has_other_type : Operator → Bool
has_other_type o = elim o.type [
  | none ↦ false
  | some type ↦ if o.is_dict then not (type =s= "css-selector") else false
]

abbrev pub is_plain : List Operator → Bool
is_plain operators = length operators == 1 && not (any has_other_type operators)

module _ (read_dict : String → Option ProceduralFilter) where
  abbrev pub keeps_parsed : Option ProceduralFilter → Bool
  keeps_parsed none = true
  keeps_parsed (some filter) = elim filter.selector [ none ↦ true | some ops ↦ is_plain ops ]

  -- An entry is kept if it is no JSON dictionary or a plain filter.
  abbrev pub keeps : Entry → Bool
  keeps none = true
  keeps (some text) = keeps_parsed (read_dict text)

  -- A dictionary has a `selector` list.
  abbrev HasSelector : Option ProceduralFilter → Type 0
  HasSelector none = Unit {0}
  HasSelector (some filter) = elim filter.selector [ none ↦ ⊥ | some ops ↦ Unit {0} ]

  -- An entry as the crate writes it: a string, and a filter with a selector where it parses.
  abbrev pub IsReadable : Entry → Type 0
  IsReadable none = ⊥
  IsReadable (some text) = HasSelector (read_dict text)

  visit_selector-keeps :
      (ops : List Operator) → visit_selector (some ops) ≡ (if is_plain ops then advance else remove)
  visit_selector-keeps [] = refl
  visit_selector-keeps (o ∷ []) = ground arith
  visit_selector-keeps (o ∷ p ∷ rest) = ground arith

  visit_parsed-keeps :
      (parsed : Option ProceduralFilter)
      → HasSelector parsed
      → visit_parsed read_dict parsed ≡ (if keeps_parsed parsed then advance else remove)
  visit_parsed-keeps none h = refl
  visit_parsed-keeps (some filter) h = elim (Option-cases filter.selector) [
    | inl e ↦ absurd (rw e at h)
    | inr (ops, e) ↦ rw e (visit_selector-keeps ops)
  ]

  visit-keeps :
      (x : Entry) → IsReadable x → visit read_dict x ≡ (if keeps x then advance else remove)
  unfolding visit
  visit-keeps none h = absurd h
  visit-keeps (some text) h = visit_parsed-keeps (read_dict text) h

  strip_loop-select :
      (passed rest : List Entry)
      → All IsReadable rest
      → strip_loop read_dict (suc (length rest)) passed rest
        ≡ finished (passed ++ select keeps rest)
  unfolding strip_loop
  strip_loop-select passed [] h = rw append-nil
  strip_loop-select passed (x ∷ rest) h = elim (Bool-cases (keeps x)) [
    | inl kept ↦
        rw (visit-keeps x h.0, kept, strip_loop)
          (strip_loop-select (passed ++ x ∷ []) rest h.1 ∙ ap finished (append_assoc passed _ _))
    | inr dropped ↦ rw (visit-keeps x h.0, dropped, strip_loop) (strip_loop-select passed rest h.1)
  ]

  stays : visit read_dict none ≡ stay
  unfolding visit
  stays = refl

  -- Over procedural actions that the crate has written (strings, each with a `selector` list if it
  -- is a JSON dictionary) the loop ends, and leaves exactly the entries that are no dictionary, or
  -- whose selector is a single operator that is not a dictionary with a `type` other than
  -- `css-selector`, in their order. So one operator without a type stays, too.
  pub strip_procedural_filters-select :
      (resources : CosmeticResources) (actions : List Entry)
      → resources.procedural_actions ≡ some actions
      → All IsReadable actions
      → strip_procedural_filters read_dict resources ≡ finished (select keeps actions)
  unfolding strip_procedural_filters
  strip_procedural_filters-select resources actions e h =
      ap (strip_list read_dict) e ∙ strip_loop-select [] actions h

  -- The loop never passes an entry that is not a string: whatever number of rounds it is given,
  -- from any readable entries before that one, it is still running.
  pub strip_loop-not_string :
      (fuel : ℕ) (passed before after : List Entry)
      → All IsReadable before
      → strip_loop read_dict fuel passed (before ++ none ∷ after) ≡ out_of_fuel
  unfolding strip_loop
  strip_loop-not_string zero passed before after h = refl
  strip_loop-not_string (suc fuel) passed [] after h =
      rw (stays, strip_loop) (strip_loop-not_string fuel passed [] after h)
  strip_loop-not_string (suc fuel) passed (x ∷ before) after h = elim (Bool-cases (keeps x)) [
    | inl kept ↦
        rw (visit-keeps x h.0, kept, strip_loop)
          (strip_loop-not_string fuel (passed ++ x ∷ []) before after h.1)
    | inr dropped ↦
        rw (visit-keeps x h.0, dropped, strip_loop)
          (strip_loop-not_string fuel passed before after h.1)
  ]
