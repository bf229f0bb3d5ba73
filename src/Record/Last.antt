-- ===== src/Record/Last.antt =====
-- The search for the last file number, and the name of a new recording.
use native.Mathlib.Nat.{le_trans}
use mathlib.Core.List.{append_cancel_left}
use xtrack.Prelude.{
  ℕ, ◌+◌, ◌≤◌, ◌^◌, ◌≡◌, ◌≢◌, ◌⊎◌, ◌∙◌, refl, sym, ap, false, Bool-cases, inl, inr, Option, none,
  some, List, [], ◌∷◌, ◌++◌, All, All-map, ℤ, pos, negsuc, ltb, ok, arith,
}
use xtrack.Text.{Text, extract_int}
use xtrack.Record.{
  FileData, file_number, later, last_among, get_last_file_num, pattern_of, get_file_name,
}
use xtrack.Record.Names.{IsListed, file_number-IsListed, file_number_round_trip}

-- A file that is no directory has the number.
abbrev pub HasNumber : FileData → ℤ → Type 0
HasNumber file n = (file.is_directory ≡ false) × (file_number file.file_name ≡ ok (some n))

abbrev pub AllListed : List FileData → Type 0
AllListed = All (λ file. IsListed file.file_name)

-- No number of a file is above the bound.
abbrev pub AllBelow : ℕ → List FileData → Type 0
AllBelow bound = All (λ file. (k : ℕ) → HasNumber file (pos k) → k ≤ bound)

-- The loop ends, with the least number that no number of a file, and not the one it starts with, is above.
IsLast : ℕ → List FileData → ℕ → Type 0
IsLast start files last =
    (start ≤ last)
    × AllBelow last files
    × ((bound : ℕ) → start ≤ bound → AllBelow bound files → last ≤ bound)

later_lem :
    (o : Option ℤ) (m : ℕ)
    → (n : ℕ) × (later (pos m) o ≡ pos n)
      × (m ≤ n)
      × ((k : ℕ) → o ≡ some (pos k) → k ≤ n)
      × ((n ≡ m) ⊎ (o ≡ some (pos n)))
later_lem none m = (m, refl, omega arith, λ k e. cc, inl refl)
later_lem (some (negsuc j)) m = (m, ground arith, omega arith, λ k e. cc, inl refl)
later_lem (some (pos j)) m = elim (Bool-cases (ltb m j)) [
  | inl above ↦ (j, ground arith, ground arith, λ k e. ground arith, inr refl)
  | inr below ↦ (m, ground arith, omega arith, λ k e. ground arith, inl refl)
]

last_among_lem :
    (files : List FileData) (m : ℕ)
    → AllListed files
    → (n : ℕ) × (last_among (pos m) files ≡ ok (pos n)) × IsLast m files n
unfolding last_among IsLast
last_among_lem [] m l = (m, refl, (omega arith, tt, λ b le h. le))
last_among_lem (file ∷ files) m (l, ls) = elim (Bool-cases file.is_directory) [
  | inl directory ↦
      let (n, e, (le, all, least)) = last_among_lem files m ls in
      (n, ground arith, (le, (λ k h. cc, all), λ b start h. least b start h.1))
  | inr plain ↦
      let found = file_number-IsListed file.file_name l in
      let (m', me, le', bound, from) = later_lem (extract_int l.middle) m in
      let (n, e, (le, all, least)) = last_among_lem files m' ls in
      (
        n,
        cc,
        (
          omega arith,
          (λ k h. le_trans (bound k (cc)) le, all),
          λ b start h.
              least b
                (elim from [
                  | inl same ↦ omega (arith, same, start)
                  | inr some_number ↦ h.0 m' (plain, found ∙ ap ok some_number)
                ])
                h.1,
        ),
      )
]

module _ (search_files : Text → List FileData) (video_dir : Text)
    (listed : AllListed (search_files (pattern_of video_dir))) where
  abbrev files_of : List FileData
  files_of = search_files (pattern_of video_dir)

  -- The last number, and a bound of it.
  pub get_last_file_num_bound :
      (bound : ℕ)
      → AllBelow bound files_of
      → (n : ℕ) × (get_last_file_num search_files video_dir ≡ ok (pos n))
        × AllBelow n files_of
        × (n ≤ bound)
  unfolding get_last_file_num IsLast
  get_last_file_num_bound bound h =
      let (n, e, (_, all, least)) = last_among_lem files_of 0 listed in
      (n, e, all, least bound (omega arith) h)

  -- The search for the last number ends without an exception, if every file that the directory search
  -- gives has a name that the pattern fits. Unless the number is the largest int, no file that is no
  -- directory has the name, without the directory, of the number above it, with which a new recording
  -- starts: no recording is overwritten.
  pub get_last_file_num_fresh :
      (n : ℕ) × (get_last_file_num search_files video_dir ≡ ok (pos n))
      × ((2 ^ 31 ≤ n + 1)
          ⊎ All
              (λ file.
                file.is_directory ≡ false
                → get_file_name video_dir (pos (n + 1)) ≢ video_dir ++ file.file_name)
              files_of)
  unfolding get_last_file_num get_file_name IsLast
  get_last_file_num_fresh =
      let (n, e, (_, all, _)) = last_among_lem files_of 0 listed in
      (
        n,
        e,
        elim (Bool-cases (ltb (n + 1) (2 ^ 31))) [
          | inl small ↦ inr (
              All-map
                (λ file bound plain same. absurd (
                  omega (
                    arith,
                    bound (n + 1) (
                      plain,
                      ap file_number (sym (append_cancel_left video_dir _ _ same))
                          ∙ file_number_round_trip (n + 1) (ground arith),
                    ),
                  )))
                files_of all)
          | inr large ↦ inl (ground arith)
        ],
      )
