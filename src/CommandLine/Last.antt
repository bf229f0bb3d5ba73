-- ===== src/CommandLine/Last.antt =====
-- The parameters as a map: each key has the value of the last argument that sets it.
use mathlib.Core.Path.{subst}
use xtrack.Prelude.{
  ◌≡◌, ◌∙◌, refl, sym, ap, ◌↔◌, inl, inr, Bool-cases, Option, none, some, List, [], ◌∷◌, ◌++◌, All,
  ok, ok_injective,
}
use xtrack.Text.{Text, text_eq}
use xtrack.Text.Search.{text_eq_iff}
use xtrack.Parameters.{Parameters, find, put}
use xtrack.CommandLine.{add_params}
use xtrack.CommandLine.Settings.{IsSetting, add_param-cases, add_param-IsSetting}
use xtrack.CommandLine.Laws.{add_params_total, add_params_keep, add_params_last}

-- No argument sets the key.
abbrev pub Unset : List Text → Text → Type 0
Unset args key = All (λ arg. (value : Text) → ¬ IsSetting arg key value) args

-- What the arguments say of a key: nothing, or the value of an argument behind which none sets the key.
abbrev pub LastSetting : List Text → Text → Option Text → Type 0
LastSetting args key none = Unset args key
LastSetting args key (some value) =
    (before : List Text) × (arg : Text) × (after : List Text) × (args ≡ before ++ arg ∷ after)
    × IsSetting arg key value
    × Unset after key

-- An argument sets one key.
IsSetting-unique :
    {arg key value key' value' : Text}
    → IsSetting arg key value
    → IsSetting arg key' value'
    → key ≡ key'
unfolding put
IsSetting-unique {arg} {key} {value} {key'} {value'} h h' =
    let e =
      ok_injective (
        sym (add_param-IsSetting [] arg key value h) ∙ add_param-IsSetting [] arg key' value' h') in
    cc

-- The map has what the arguments say.
find-LastSetting :
    (args : List Text) (key : Text) (o : Option Text) (qs : Parameters)
    → add_params [] args ≡ ok qs
    → LastSetting args key o
    → find qs key ≡ o
unfolding find
find-LastSetting args key none qs e unset =
    let (qs', e', kept) = add_params_keep [] args key unset in
    ap (λ ps. find ps key) (ok_injective (sym e ∙ e')) ∙ kept
find-LastSetting args key (some value) qs e (before, arg, after, joined, s, unset) =
    let (qs', e', last) = add_params_last [] before after arg key value tt s unset in
    ap (λ ps. find ps key) (ok_injective (sym e ∙ ap (add_params []) joined ∙ e')) ∙ last

-- One more argument in front.
more_arguments :
    (arg : Text) (args : List Text) (key : Text) (o : Option Text)
    → LastSetting args key o
    → (o' : Option Text) × LastSetting (arg ∷ args) key o'
more_arguments arg args key (some value) (before, other, after, joined, s, unset) =
    (some value, (arg ∷ before, other, after, ap (◌∷◌ arg) joined, s, unset))
more_arguments arg args key none unset = elim (add_param-cases [] arg) [
  | inr (none_set, _) ↦ (none, (none_set key, unset))
  | inl (k, v, s, _) ↦ elim (Bool-cases (text_eq k key)) [
    | inl same ↦ (
      some v,
      ([], arg, args, refl, subst (λ x. IsSetting arg x v) ((text_eq_iff k key).0 same) s, unset),
    )
    | inr other ↦
        (none, (λ value h. let e = (text_eq_iff k key).1 (IsSetting-unique s h) in cc, unset))
  ]
]

-- The arguments say something of every key.
last_setting : (args : List Text) (key : Text) → (o : Option Text) × LastSetting args key o
last_setting [] key = (none, tt)
last_setting (arg ∷ args) key =
    let (o, h) = last_setting args key in more_arguments arg args key o h

-- Reading the arguments never throws, and the parameters have for each key exactly what the arguments say of
-- it: the value of the last argument that sets the key, and none where no argument sets it.
pub find-add_params :
    (args : List Text)
    → (qs : Parameters) × (add_params [] args ≡ ok qs)
      × ((key : Text) (o : Option Text) → LastSetting args key o ↔ (find qs key ≡ o))
find-add_params args =
    let (qs, e, _) = add_params_total [] args tt in
    (
      qs,
      e,
      λ key o. (
        find-LastSetting args key o qs e,
        λ found.
            let (o', last) = last_setting args key in
            subst (LastSetting args key) (sym (find-LastSetting args key o' qs e last) ∙ found)
              last,
      ),
    )
