-- ===== src/CommandLine/Settings.antt =====
-- What one argument means, said without the code: a key, the sign `=`, and a value.
use mathlib.Core.Path.{subst}
use xtrack.Prelude.{
  ℕ, suc, ◌+◌, ◌-◌, ◌≡◌, ◌≢◌, ◌∙◌, refl, sym, ap, ◌⊎◌, inl, inr, true, false, none, some, [], ◌∷◌,
  ◌++◌, ltb, length, take, drop, take_append, take_all, length-append, arith, ok,
}
use xtrack.Text.{Text, find_first_of, index_of}
use xtrack.Text.Search.{
  substr_within, Lacks, index_of-IsCut, Lacks-append, cut_unique, index_of-append,
}
use xtrack.Parameters.{Parameters, put}
use xtrack.CommandLine.{add_param}

-- `arg` is `key=value`: neither is empty, and the key has no `=` but perhaps as its first byte.
pub record IsSetting (arg key value : Text) : Type 0 where
  pub joined : arg ≡ key ++ b'=' ∷ value
  pub key_ne : key ≢ []
  pub value_ne : value ≢ []
  pub first_sign : Lacks b'=' (drop 1 key)

drop_after : (m b : ℕ) (k value : Text) → m ≡ suc (length k) → drop m (k ++ b ∷ value) ≡ value
drop_after m b [] value e = rw e
drop_after m b (c ∷ k) value e = rw e (drop_after (suc (length k)) b k value refl)

take_before : (m b : ℕ) (k value : Text) → m ≡ length k → take m (k ++ b ∷ value) ≡ k
take_before m b k value e = rw e (take_append k (b ∷ value))

find_sign :
    (c : ℕ) (k value : Text)
    → Lacks b'=' k
    → find_first_of b'=' (c ∷ k ++ b'=' ∷ value) 1 ≡ some (1 + length k)
unfolding find_first_of
find_sign c k value h = rw (index_of-append b'=' k value h)

sign_before_end :
    (c : ℕ) (k value : Text)
    → value ≢ []
    → ltb (1 + length k) (length (c ∷ k ++ b'=' ∷ value) - 1) ≡ true
sign_before_end c k [] v = absurd (v refl)
sign_before_end c k (d ∷ value) v = ground (arith, length-append k (b'=' ∷ d ∷ value))

-- The argument in the form in which the code takes it apart.
add_param_split :
    (ps : Parameters) (c : ℕ) (k value : Text)
    → Lacks b'=' k
    → value ≢ []
    → add_param ps (c ∷ k ++ b'=' ∷ value) ≡ ok (put ps (c ∷ k) value)
unfolding add_param
add_param_split ps c k value h v =
    let arg : Text = c ∷ k ++ b'=' ∷ value in
    let size = length-append k (b'=' ∷ value) in
    rw (
      find_sign c k value h,
      sign_before_end c k value v,
      substr_within arg (c ∷ k) 0 (1 + length k) (omega arith)
          (take_before _ b'=' (c ∷ k) value (omega arith)),
      substr_within arg value (1 + length k + 1) (length arg - (1 + length k) - 1) (omega arith) (
          rw (drop_after (1 + length k + 1) b'=' (c ∷ k) value (omega arith))
            (take_all _ value (omega arith))),
    )

-- A setting is stored.
pub add_param-IsSetting :
    (ps : Parameters) (arg key value : Text)
    → IsSetting arg key value
    → add_param ps arg ≡ ok (put ps key value)
add_param-IsSetting ps arg [] value h = absurd (h.key_ne refl)
add_param-IsSetting ps arg (c ∷ k) value h =
    rw h.joined (add_param_split ps c k value h.first_sign h.value_ne)

-- The arguments with a first byte: `=` behind it, and no setting without one.
IsSetting-tail :
    (c : ℕ) (s key value : Text)
    → IsSetting (c ∷ s) key value
    → (k : Text) × (s ≡ k ++ b'=' ∷ value) × Lacks b'=' k
IsSetting-tail c s [] value h = absurd (h.key_ne refl)
IsSetting-tail c s (d ∷ k) value h = let e = h.joined in (k, cc, h.first_sign)

not-IsSetting-nil : (key value : Text) → ¬ IsSetting [] key value
not-IsSetting-nil [] value h = h.key_ne refl
not-IsSetting-nil (d ∷ k) value h = let e = h.joined in cc

not-IsSetting-Lacks : (c : ℕ) (s key value : Text) → Lacks b'=' s → ¬ IsSetting (c ∷ s) key value
not-IsSetting-Lacks c s key value lacks h =
    let (k, e, _) = IsSetting-tail c s key value h in
    Lacks-append b'=' k value (subst (Lacks b'=') e lacks)

not-IsSetting-last :
    (c : ℕ) (s before key value : Text)
    → Lacks b'=' before
    → s ≡ before ++ b'=' ∷ []
    → ¬ IsSetting (c ∷ s) key value
not-IsSetting-last c s before key value lacks joined h =
    let (k, e, first) = IsSetting-tail c s key value h in
    h.value_ne (sym (cut_unique b'=' before k [] value lacks first (sym joined ∙ e)).1)

add_param-none :
    (ps : Parameters) (c : ℕ) (s : Text) → index_of b'=' s ≡ none → add_param ps (c ∷ s) ≡ ok ps
unfolding add_param find_first_of
add_param-none ps c s e = rw (e, add_param)

add_param_at_end :
    (ps : Parameters) (c i : ℕ) (s : Text)
    → index_of b'=' s ≡ some i
    → length s ≡ suc i
    → add_param ps (c ∷ s) ≡ ok ps
unfolding add_param find_first_of
add_param_at_end ps c i s e l =
    let past : ltb (1 + i) (suc (length s) - 1) ≡ false = ground arith in
    rw (e, add_param) (rw past)

-- Every argument is a setting, which is stored, or none, and then it is ignored.
pub add_param-cases :
    (ps : Parameters) (arg : Text)
    → ((key : Text) × (value : Text) × IsSetting arg key value
        × (add_param ps arg ≡ ok (put ps key value)))
      ⊎ (((key value : Text) → ¬ IsSetting arg key value) × (add_param ps arg ≡ ok ps))
add_param-cases ps [] = inr (not-IsSetting-nil, unfold add_param find_first_of in refl)
add_param-cases ps (c ∷ s) = elim (index_of-IsCut b'=' s) [
  | inr (e, lacks) ↦ inr (λ k v. not-IsSetting-Lacks c s k v lacks, add_param-none ps c s e)
  | inl (i, e, (before, [], joined, l, lacks)) ↦ inr (
    λ k v. not-IsSetting-last c s before k v lacks joined,
    add_param_at_end ps c i s e
        (ap length joined ∙ (omega (arith, length-append before (b'=' ∷ []), l))),
  )
  | inl (i, e, (before, d ∷ after, joined, l, lacks)) ↦ inl (
    c ∷ before,
    d ∷ after,
    record { joined = ap (◌∷◌ c) joined; key_ne = cc; value_ne = cc; first_sign = lacks },
    rw joined (add_param_split ps c before (d ∷ after) lacks (cc)),
  )
]
