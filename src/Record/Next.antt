-- ===== src/Record/Next.antt =====
-- The search for the next file number is cyclic.
use native.Mathlib.Nat.{le_trans, le_refl}
use xtrack.Prelude.{
  ℕ, ◌+◌, ◌<◌, ◌≤◌, ◌^◌, ◌≡◌, ◌≢◌, ◌∙◌, refl, sym, ap, ◌⊎◌, Bool-cases, inl, inr, Option, none,
  some, List, [], ◌∷◌, All, All-map, Any, if◌then◌else◌, ℤ, pos, negsuc, InInt, ltb_ℤ, ltb, ◌<ℤ◌,
  ◌≤ℤ◌, ok, arith,
}
use xtrack.Text.{Text, extract_int}
use xtrack.Text.Decimal.{extract_int-InInt}
use xtrack.Record.{pattern_of, FileData, is_nearer, closer, next_among, get_next_file_num}
use xtrack.Record.Names.{file_number-InInt, file_number-IsListed}
use xtrack.Record.Last.{HasNumber, AllListed}

-- How far behind `current` a number comes when the numbers are gone through upwards and then from the
-- smallest one on; a negative number, which stands for none, comes last.
rank : ℤ → ℤ → ℕ
rank current (negsuc n) = 2 ^ 33
rank current (pos n) = if ltb_ℤ current (pos n) then n else 2 ^ 32 + n

is_nearer-rank :
    (current next : ℤ) (k : ℕ)
    → InInt next
    → k < 2 ^ 31
    → is_nearer current next (pos k) ≡ ltb (rank current (pos k)) (rank current next)
unfolding is_nearer rank
is_nearer-rank current (pos n) k h hk = ground arith
is_nearer-rank current (negsuc n) k h hk = ground arith

-- One round of the loop.
closer_lem :
    (current next : ℤ) (o : Option ℤ)
    → InInt next
    → ((n : ℤ) → o ≡ some n → InInt n)
    → ((k : ℕ) → o ≢ some (negsuc k))
    → let r = closer current next o in
      InInt r
      × ((r ≡ next) ⊎ (o ≡ some r))
      × (rank current r ≤ rank current next)
      × ((k : ℕ) → o ≡ some (pos k) → rank current r ≤ rank current (pos k))
closer_lem current next none h range sign = (h, inl refl, le_refl _, λ k e. cc)
closer_lem current next (some (negsuc k)) h range sign = absurd (sign k refl)
closer_lem current next (some (pos k)) h range sign =
    let small = range (pos k) refl in
    let test = is_nearer-rank current next k h small.0 in
    elim (Bool-cases (is_nearer current next (pos k))) [
      | inl yes' ↦ rw yes' (small, inr refl, ground arith, λ j e. rw (← e' j e) (le_refl _))
      | inr no' ↦ rw no' (h, inl refl, le_refl _, λ j e. rw (← e' j e) (ground arith))
    ]
  where
    e' : (j : ℕ) → ◌≡◌ {A = Option ℤ} (some (pos k)) (some (pos j)) → k ≡ j
    e' j e = cc

-- A file's number, if it has one, is not negative.
abbrev pub HasNoNegative : List FileData → Type 0
HasNoNegative = All (λ file. (k : ℕ) → ¬ HasNumber file (negsuc k))

IsFound : ℤ → ℤ → List FileData → ℤ → Type 0
IsFound current next files r =
    ((r ≡ next) ⊎ Any (λ file. HasNumber file r) files)
    × (rank current r ≤ rank current next)
    × All (λ file. (k : ℕ) → HasNumber file (pos k) → rank current r ≤ rank current (pos k)) files

found_here :
    {r c next : ℤ} {o : Option ℤ} {Here : ℤ → Type 0} {There : Type 0}
    → (r ≡ c) ⊎ There
    → (c ≡ next) ⊎ (o ≡ some c)
    → ((n : ℤ) → o ≡ some n → Here n)
    → (r ≡ next) ⊎ (Here r ⊎ There)
found_here (inr there) _ _ = inr (inr there)
found_here (inl e) (inl e') _ = inl (e ∙ e')
found_here {r = r} (inl e) (inr e') has = inr (inl (has r (e' ∙ ap some (sym e))))

next_among_lem :
    (current next : ℤ) (files : List FileData)
    → InInt next
    → AllListed files
    → HasNoNegative files
    → (r : ℤ) × (next_among current next files ≡ ok r) × IsFound current next files r
unfolding next_among IsFound
next_among_lem current next [] h l s = (next, refl, (inl refl, le_refl _, tt))
next_among_lem current next (file ∷ files) h (l, ls) (s, ss) = elim (Bool-cases file.is_directory) [
  | inl directory ↦
      let (r, e, (from, le, all)) = next_among_lem current next files h ls ss in
      (r, ground arith, (elim from [ inl a ↦ inl a | inr b ↦ inr (inr b) ], le, ((λ k x. cc), all)))
  | inr plain ↦
      let found = file_number-IsListed file.file_name l in
      let o = extract_int l.middle in
      let (h', from', le', bound) =
        closer_lem current next o h (λ n. extract_int-InInt l.middle)
          (λ k e. s k (plain, found ∙ ap ok e)) in
      let (r, e, (from, le, all)) = next_among_lem current (closer current next o) files h' ls ss in
      (
        r,
        cc,
        (
          found_here {Here = HasNumber file} from from' (λ n x. (plain, found ∙ ap ok x)),
          le_trans le le',
          ((λ k x. le_trans le (bound k (cc))), all),
        ),
      )
]

-- Going through the numbers upwards from behind `current`, and then from the smallest one on, `k` does
-- not come before `n`.
abbrev pub NotBefore : ℤ → ℕ → ℕ → Type 0
NotBefore current n k =
    (current <ℤ pos n → current <ℤ pos k → n ≤ k)
    × (pos n ≤ℤ current → (pos k ≤ℤ current) × (n ≤ k))

NotBefore-rank :
    (current : ℤ) (n k : ℕ)
    → n < 2 ^ 31
    → k < 2 ^ 31
    → rank current (pos n) ≤ rank current (pos k)
    → NotBefore current n k
unfolding rank
NotBefore-rank current n k hn hk h = (λ a b. ground arith, λ a. (ground arith, ground arith))

rank_none :
    (current : ℤ) (j k : ℕ) → j < 2 ^ 31 → ¬ (rank current (negsuc k) ≤ rank current (pos j))
unfolding rank
rank_none current j k small h = ground arith

not-All-Any :
    (files : List FileData) (k : ℕ)
    → HasNoNegative files
    → ¬ Any (λ file. HasNumber file (negsuc k)) files
not-All-Any [] k s h = h
not-All-Any (file ∷ files) k (s, ss) (inl h) = s k h
not-All-Any (file ∷ files) k (s, ss) (inr h) = not-All-Any files k ss h

pub Any-InInt : (files : List FileData) (n : ℤ) → Any (λ file. HasNumber file n) files → InInt n
Any-InInt [] n h = absurd h
Any-InInt (file ∷ files) n (inl h) = file_number-InInt file.file_name n h.1
Any-InInt (file ∷ files) n (inr h) = Any-InInt files n h

module _ (search_files : Text → List FileData) (video_dir : Text) (current : ℤ)
    (listed : AllListed (search_files (pattern_of video_dir)))
    (signs : HasNoNegative (search_files (pattern_of video_dir))) where
  abbrev files_of : List FileData
  files_of = search_files (pattern_of video_dir)

  conclusion :
      (r : ℤ)
      → IsFound current (negsuc 0) files_of r
      → ((r ≡ negsuc 0) × All (λ file. (k : ℕ) → ¬ HasNumber file (pos k)) files_of)
        ⊎ ((n : ℕ) × (r ≡ pos n)
            × Any (λ file. HasNumber file (pos n)) files_of
            × All (λ file. (k : ℕ) → HasNumber file (pos k) → NotBefore current n k) files_of)
  unfolding IsFound
  conclusion (negsuc k) (inr some_file, le, all) = absurd (not-All-Any files_of k signs some_file)
  conclusion (negsuc k) (inl e, le, all) = inl (
    e,
    All-map
        (λ file bound j h.
          rank_none current j k (file_number-InInt file.file_name (pos j) h.1).0 (bound j h))
        files_of all,
  )
  conclusion (pos n) (inl e, le, all) = cc
  conclusion (pos n) (inr some_file, le, all) = inr (
    n,
    refl,
    some_file,
    All-map
        (λ file bound k h.
          NotBefore-rank current n k (Any-InInt files_of (pos n) some_file).0
            (file_number-InInt file.file_name (pos k) h.1).0 (bound k h))
        files_of all,
  )

  -- The search for the next file number, if every file that the directory search gives has a name that
  -- the pattern fits and no file has a negative number: it ends without an exception. It gives -1
  -- exactly if no file that is no directory has a number, and otherwise the number of such a file, the
  -- first one behind `current`, going on from the smallest number behind the largest.
  pub get_next_file_num_cyclic :
      (r : ℤ) × (get_next_file_num search_files video_dir current ≡ ok r)
      × (((r ≡ negsuc 0) × All (λ file. (k : ℕ) → ¬ HasNumber file (pos k)) files_of)
          ⊎ ((n : ℕ) × (r ≡ pos n)
              × Any (λ file. HasNumber file (pos n)) files_of
              × All (λ file. (k : ℕ) → HasNumber file (pos k) → NotBefore current n k) files_of))
  unfolding get_next_file_num
  get_next_file_num_cyclic =
      let (r, e, found) = next_among_lem current (negsuc 0) files_of (omega arith) listed signs in
      (r, e, conclusion r found)
