-- ===== src/Settings/Arguments.antt =====
-- The arguments that the messages about resources CHECK for
-- (chrome/browser/ui/webui/brave_adblock_ui.cc).
use chromium_adblock.Base.{Bool, true, false, ◌&&◌, ◌≡◌, refl, is_some, List, [], ◌∷◌, arith}
use chromium_adblock.Settings.{
  Argument, text_argument, flag_argument, value_argument, one_text, two_texts, three_texts,
  two_texts_and_dict, three_texts_and_dict,
}

-- What the handlers of these messages ask of an argument: a text, or a dictionary.
pub data Kind : Type 0 where
  text dict : Kind

abbrev is_kind : Kind → Argument → Bool
is_kind text (text_argument a) = true
is_kind text (flag_argument a) = false
is_kind text (value_argument a) = false
is_kind dict (text_argument a) = false
is_kind dict (flag_argument a) = false
is_kind dict (value_argument a) = a.is_dict

-- As many arguments as there are kinds, each of its kind.
abbrev pub have_kinds : List Kind → List Argument → Bool
have_kinds [] [] = true
have_kinds [] (more ∷ args) = false
have_kinds (kind ∷ kinds) [] = false
have_kinds (kind ∷ kinds) (a ∷ args) = is_kind kind a && have_kinds kinds args

pub one_text-have_kinds :
    (args : List Argument) → is_some (one_text args) ≡ have_kinds (text ∷ []) args
one_text-have_kinds [] = refl
one_text-have_kinds (flag_argument a ∷ args) = refl
one_text-have_kinds (value_argument a ∷ args) = refl
one_text-have_kinds (text_argument a ∷ []) = refl
one_text-have_kinds (text_argument a ∷ more ∷ args) = refl

pub two_texts-have_kinds :
    (args : List Argument) → is_some (two_texts args) ≡ have_kinds (text ∷ text ∷ []) args
two_texts-have_kinds [] = refl
two_texts-have_kinds (flag_argument a ∷ args) = refl
two_texts-have_kinds (value_argument a ∷ args) = refl
two_texts-have_kinds (text_argument a ∷ []) = refl
two_texts-have_kinds (text_argument a ∷ flag_argument b ∷ args) = refl
two_texts-have_kinds (text_argument a ∷ value_argument b ∷ args) = refl
two_texts-have_kinds (text_argument a ∷ text_argument b ∷ []) = refl
two_texts-have_kinds (text_argument a ∷ text_argument b ∷ more ∷ args) = refl

pub three_texts-have_kinds :
    (args : List Argument) → is_some (three_texts args) ≡ have_kinds (text ∷ text ∷ text ∷ []) args
three_texts-have_kinds [] = refl
three_texts-have_kinds (flag_argument a ∷ args) = refl
three_texts-have_kinds (value_argument a ∷ args) = refl
three_texts-have_kinds (text_argument a ∷ []) = refl
three_texts-have_kinds (text_argument a ∷ flag_argument b ∷ args) = refl
three_texts-have_kinds (text_argument a ∷ value_argument b ∷ args) = refl
three_texts-have_kinds (text_argument a ∷ text_argument b ∷ []) = refl
three_texts-have_kinds (text_argument a ∷ text_argument b ∷ flag_argument c ∷ args) = refl
three_texts-have_kinds (text_argument a ∷ text_argument b ∷ value_argument c ∷ args) = refl
three_texts-have_kinds (text_argument a ∷ text_argument b ∷ text_argument c ∷ []) = refl
three_texts-have_kinds (text_argument a ∷ text_argument b ∷ text_argument c ∷ more ∷ args) = refl

pub two_texts_and_dict-have_kinds :
    (args : List Argument)
    → is_some (two_texts_and_dict args) ≡ have_kinds (text ∷ text ∷ dict ∷ []) args
two_texts_and_dict-have_kinds [] = refl
two_texts_and_dict-have_kinds (flag_argument a ∷ args) = refl
two_texts_and_dict-have_kinds (value_argument a ∷ args) = refl
two_texts_and_dict-have_kinds (text_argument a ∷ []) = refl
two_texts_and_dict-have_kinds (text_argument a ∷ flag_argument b ∷ args) = refl
two_texts_and_dict-have_kinds (text_argument a ∷ value_argument b ∷ args) = refl
two_texts_and_dict-have_kinds (text_argument a ∷ text_argument b ∷ []) = refl
two_texts_and_dict-have_kinds (text_argument a ∷ text_argument b ∷ text_argument c ∷ args) = refl
two_texts_and_dict-have_kinds (text_argument a ∷ text_argument b ∷ flag_argument c ∷ args) = refl
two_texts_and_dict-have_kinds (text_argument a ∷ text_argument b ∷ value_argument c ∷ []) =
    ground arith
two_texts_and_dict-have_kinds (text_argument a ∷ text_argument b ∷ value_argument c ∷ more ∷ args) =
    ground arith

pub three_texts_and_dict-have_kinds :
    (args : List Argument)
    → is_some (three_texts_and_dict args) ≡ have_kinds (text ∷ text ∷ text ∷ dict ∷ []) args
three_texts_and_dict-have_kinds [] = refl
three_texts_and_dict-have_kinds (flag_argument a ∷ args) = refl
three_texts_and_dict-have_kinds (value_argument a ∷ args) = refl
three_texts_and_dict-have_kinds (text_argument a ∷ []) = refl
three_texts_and_dict-have_kinds (text_argument a ∷ flag_argument b ∷ args) = refl
three_texts_and_dict-have_kinds (text_argument a ∷ value_argument b ∷ args) = refl
three_texts_and_dict-have_kinds (text_argument a ∷ text_argument b ∷ []) = refl
three_texts_and_dict-have_kinds (text_argument a ∷ text_argument b ∷ flag_argument c ∷ args) = refl
three_texts_and_dict-have_kinds (text_argument a ∷ text_argument b ∷ value_argument c ∷ args) = refl
three_texts_and_dict-have_kinds (text_argument a ∷ text_argument b ∷ text_argument c ∷ []) = refl
three_texts_and_dict-have_kinds
      (text_argument a ∷ text_argument b ∷ text_argument c ∷ text_argument d ∷ args) =
    refl
three_texts_and_dict-have_kinds
      (text_argument a ∷ text_argument b ∷ text_argument c ∷ flag_argument d ∷ args) =
    refl
three_texts_and_dict-have_kinds
      (text_argument a ∷ text_argument b ∷ text_argument c ∷ value_argument d ∷ []) =
    ground arith
three_texts_and_dict-have_kinds
      (text_argument a ∷ text_argument b ∷ text_argument c ∷ value_argument d ∷ more ∷ args) =
    ground arith
