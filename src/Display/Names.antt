-- ===== src/Display/Names.antt =====
-- The list of names is cut at the commas.
use xtrack.Prelude.{
  sym, Returns, result, Bool-cases, ◌==◌, ◌≢◌, inl, inr, ℕ, zero, suc, ◌+◌, ◌-◌, ◌<◌, ◌≡◌, ◌∙◌,
  refl, ap, true, false, none, some, List, [], ◌∷◌, ◌++◌, append_assoc, append-nil, length,
  length-append, drop, take_append, drop_append, All, ltb, ok, arith,
}
use xtrack.Text.{Text, find_first_of, substr}
use xtrack.Text.Search.{Lacks, index_of-Lacks, index_of-append, substr_within}
use xtrack.Display.{split_names, track_names_of}

-- Names that end with a comma each, and a rest. Every text is of this form.
abbrev pub terminated : List Text → Text → Text
terminated [] rest = rest
terminated (name ∷ names) rest = name ++ b',' ∷ terminated names rest

-- The rest is a name, unless it is empty.
abbrev pub last_name : Text → List Text
last_name [] = []
last_name (c ∷ rest) = (c ∷ rest) ∷ []

drop_at :
    (s done rest : Text) (last : ℕ) → s ≡ done ++ rest → last ≡ length done → drop last s ≡ rest
drop_at s done rest last es el = rw (es, el) (drop_append done rest)

comma_at :
    (s done name rest : Text) (last : ℕ)
    → s ≡ done ++ (name ++ b',' ∷ rest)
    → last ≡ length done
    → Lacks b',' name
    → find_first_of b',' s last ≡ some (last + length name)
unfolding find_first_of
comma_at s done name rest last es el h =
    rw (drop_at s done (name ++ b',' ∷ rest) last es el, index_of-append b',' name rest h)

no_comma_at :
    (s done rest : Text) (last : ℕ)
    → s ≡ done ++ rest
    → last ≡ length done
    → Lacks b',' rest
    → find_first_of b',' s last ≡ none
unfolding find_first_of
no_comma_at s done rest last es el h =
    rw (drop_at s done rest last es el, index_of-Lacks b',' rest h)

part_at :
    (s done name rest : Text) (last count : ℕ)
    → s ≡ done ++ (name ++ rest)
    → last ≡ length done
    → count ≡ length name
    → substr s last count ≡ ok name
part_at s done name rest last count es el ec =
    substr_within s name last count (rw es (omega (arith, length-append done (name ++ rest))))
      (rw (drop_at s done (name ++ rest) last es el, ec) (take_append name rest))

last_part :
    (fuel : ℕ) (s done rest : Text) (last : ℕ) (names : List Text)
    → s ≡ done ++ rest
    → last ≡ length done
    → split_names (suc fuel) s last none names ≡ ok (names ++ last_name rest)
unfolding split_names
last_part fuel s done [] last names es el =
    let at_end : ltb last (length s) ≡ false = rw es (ground (arith, length-append done [])) in
    rw (at_end, append-nil) refl
last_part fuel s done (c ∷ rest) last names es el =
    let whole : s ≡ done ++ ((c ∷ rest) ++ []) = rw append-nil es in
    let inside : ltb last (length s) ≡ true =
      rw es (ground (arith, length-append done (c ∷ rest))) in
    let count : length s - last ≡ length (c ∷ rest) =
      rw es (omega (arith, length-append done (c ∷ rest))) in
    rw (inside, part_at s done (c ∷ rest) [] last (length s - last) whole el count) refl

every_part :
    (ns : List Text) (rest : Text) (fuel : ℕ) (s done : Text) (last : ℕ) (names : List Text)
    → s ≡ done ++ terminated ns rest
    → last ≡ length done
    → length (terminated ns rest) < fuel
    → All (Lacks b',') ns
    → Lacks b',' rest
    → split_names fuel s last (find_first_of b',' s last) names
      ≡ ok (names ++ (ns ++ last_name rest))
unfolding split_names
every_part ns rest zero s done last names es el hf hs h = absurd (omega arith)
every_part [] rest (suc fuel) s done last names es el hf hs h =
    rw (no_comma_at s done rest last es el h) (last_part fuel s done rest last names es el)
every_part (n ∷ ns) rest (suc fuel) s done last names es el hf (hn, hs) h =
    let tail = terminated ns rest in
    let es' : s ≡ (done ++ n ++ b',' ∷ []) ++ tail = es ∙ (rw (append_assoc, append_assoc) refl) in
    let el' : last + length n + 1 ≡ length (done ++ n ++ b',' ∷ []) =
      omega (arith, el, length-append (done ++ n) (b',' ∷ []), length-append done n) in
    let next =
      every_part ns rest fuel s (done ++ n ++ b',' ∷ []) (last + length n + 1) (names ++ n ∷ []) es'
        el' (omega (arith, length-append n (b',' ∷ tail))) hs h in
    rw
      (
        comma_at s done n tail last es el hn,
        part_at s done n (b',' ∷ tail) last (last + length n - last) es el (omega arith),
      )
      (next ∙ ap ok (rw append_assoc refl))

-- The names of the tracked objects are the parts of the text between the commas, where every part but the
-- last one is ended by a comma; a last part that is empty is no name.
pub track_names_of-terminated :
    (names : List Text) (rest : Text)
    → All (Lacks b',') names
    → Lacks b',' rest
    → track_names_of (terminated names rest) ≡ ok (names ++ last_name rest)
unfolding track_names_of
track_names_of-terminated names rest hs h =
    every_part names rest _ (terminated names rest) [] 0 [] refl refl (omega arith) hs h

add_byte : ℕ → List Text → Text → List Text × Text
add_byte c [] rest = ([], c ∷ rest)
add_byte c (n ∷ ns) rest = ((c ∷ n) ∷ ns, rest)

add_byte_lem :
    (c : ℕ) (ns : List Text) (rest : Text)
    → c ≢ b','
    → All (Lacks b',') ns
    → Lacks b',' rest
    → (terminated (add_byte c ns rest).0 (add_byte c ns rest).1 ≡ c ∷ terminated ns rest)
      × All (Lacks b',') (add_byte c ns rest).0
      × Lacks b',' (add_byte c ns rest).1
unfolding add_byte
add_byte_lem c [] rest ne hs h = (refl, tt, (ne, h))
add_byte_lem c (n ∷ ns) rest ne hs h = (refl, ((ne, hs.0), hs.1), h)

-- Every text is of the form.
pub IsTerminated : Text → Type 0
IsTerminated s =
    (ns : List Text) × (rest : Text) × (s ≡ terminated ns rest)
    × All (Lacks b',') ns
    × Lacks b',' rest

every_IsTerminated : (s : Text) → IsTerminated s
unfolding IsTerminated
every_IsTerminated [] = ([], [], refl, tt, tt)
every_IsTerminated (c ∷ s) =
    let (ns, rest, e, hs, h) = every_IsTerminated s in
    elim (Bool-cases (c == b',')) [
      | inl comma ↦
          ([] ∷ ns, rest, (let same : c ≡ b',' = ground arith in rw (same, e) refl), (tt, hs), h)
      | inr other ↦
          let (e', hs', h') = add_byte_lem c ns rest (ground arith) hs h in
          ((add_byte c ns rest).0, (add_byte c ns rest).1, ap (λ x. c ∷ x) e ∙ sym e', hs', h')
    ]

pub track_names_of-Returns : (s : Text) → Returns (track_names_of s)
unfolding IsTerminated
track_names_of-Returns s =
    let (ns, rest, e, hs, h) = every_IsTerminated s in
    rw (e, track_names_of-terminated ns rest hs h) (result _)
