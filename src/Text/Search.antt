-- ===== src/Text/Search.antt =====
-- Laws of `find_first_of`, of the string comparison, and of `take` and `drop` at a found byte.
use xtrack.Prelude.{
  ok, ◌≤◌, take, drop, ℕ, suc, ◌≡◌, ◌≢◌, refl, ap, ◌↔◌, ◌⊎◌, true, some, none, [], ◌∷◌, ◌++◌, ◌==◌,
  length, All, Bool-cases, inl, inr, arith,
}
use xtrack.Text.{substr, Text, text_eq, index_of}

-- No byte of the text is `b`.
abbrev pub Lacks : ℕ → Text → Type 0
Lacks b = All (λ c. c ≢ b)

pub text_eq_iff : (s t : Text) → (text_eq s t ≡ true) ↔ (s ≡ t)
text_eq_iff [] [] = (λ _. refl, λ _. refl)
text_eq_iff [] (d ∷ t) = (λ h. cc, λ h. cc)
text_eq_iff (c ∷ s) [] = (λ h. cc, λ h. cc)
text_eq_iff (c ∷ s) (d ∷ t) = ground (arith, text_eq_iff s t)

pub index_of-Lacks : (b : ℕ) (s : Text) → Lacks b s → index_of b s ≡ none
unfolding index_of
index_of-Lacks b [] h = refl
index_of-Lacks b (c ∷ s) h = ground (arith, index_of-Lacks b s h.1)

pub index_of-append :
    (b : ℕ) (s rest : Text) → Lacks b s → index_of b (s ++ b ∷ rest) ≡ some (length s)
unfolding index_of
index_of-append b [] rest h = ground arith
index_of-append b (c ∷ s) rest h = ground (arith, index_of-append b s rest h.1)

-- What `index_of` finds splits the text there.
abbrev pub IsCut : ℕ → Text → ℕ → Type 0
IsCut b s i =
    (before : Text) × (after : Text) × (s ≡ before ++ b ∷ after)
    × (length before ≡ i)
    × Lacks b before

IsCut-cons : (b c : ℕ) (s : Text) (i : ℕ) → c ≢ b → IsCut b s i → IsCut b (c ∷ s) (suc i)
IsCut-cons b c s i h (before, after, e, l, none_before) =
    (c ∷ before, after, ap (◌∷◌ c) e, ap suc l, (h, none_before))

pub index_of-IsCut :
    (b : ℕ) (s : Text)
    → ((i : ℕ) × (index_of b s ≡ some i) × IsCut b s i) ⊎ ((index_of b s ≡ none) × Lacks b s)
unfolding index_of
index_of-IsCut b [] = inr (refl, tt)
index_of-IsCut b (c ∷ s) = elim (Bool-cases (c == b)) [
  | inl here ↦
      inl (0, rw here, ([], s, (let e : c ≡ b = ground arith in ap (λ x. x ∷ s) e), refl, tt))
  | inr there ↦ elim (index_of-IsCut b s) [
    | inl (i, e, cut) ↦ inl (suc i, rw (there, e), IsCut-cons b c s i (ground arith) cut)
    | inr (e, lacks) ↦ inr (rw (there, e), (ground arith, lacks))
  ]
]

pub Lacks-append : (b : ℕ) (s rest : Text) → ¬ Lacks b (s ++ b ∷ rest)
Lacks-append b [] rest h = h.0 refl
Lacks-append b (c ∷ s) rest h = Lacks-append b s rest h.1

-- A text is cut at its first `b` in one way.
pub cut_unique :
    (b : ℕ) (p q r s : Text) → Lacks b p → Lacks b q → p ++ b ∷ r ≡ q ++ b ∷ s → (p ≡ q) × (r ≡ s)
cut_unique b [] [] r s hp hq e = (refl, cc)
cut_unique b [] (d ∷ q) r s hp hq e = absurd (hq.0 (cc))
cut_unique b (c ∷ p) [] r s hp hq e = absurd (hp.0 (cc))
cut_unique b (c ∷ p) (d ∷ q) r s hp hq e =
    let (same, rest) = cut_unique b p q r s hp.1 hq.1 (cc) in (cc, rest)

pub substr_within :
    (s part : Text) (start count : ℕ)
    → start ≤ length s
    → take count (drop start s) ≡ part
    → substr s start count ≡ ok part
unfolding substr
substr_within s part start count h e = rw (← e) (ground arith)
