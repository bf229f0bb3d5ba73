-- ===== src/Tests/Files.antt =====
-- Tests of the names and the numbers of the video files.
use xtrack.Prelude.{
  ◌≡◌, ◌≢◌, ◌⊎◌, refl, ℕ, ◌+◌, ◌≤◌, ◌^◌, true, false, some, List, [], ◌∷◌, ◌++◌, ℤ, pos, negsuc,
  All, Any, ok, arith,
}
use xtrack.Text.{Text, codes, print_padded}
use xtrack.Record.{
  FileData, file_prefix, file_ext, file_number, get_next_file_num, get_last_file_num, get_file_name,
}
use xtrack.Record.Names.{IsListed, file_number_round_trip}
use xtrack.Record.Last.{HasNumber, AllListed, get_last_file_num_fresh}
use xtrack.Record.Next.{HasNoNegative, NotBefore, get_next_file_num_cyclic}

abbrev pub files : List FileData
files =
    record { is_directory = false; file_name = codes "xtrack007.avi" }
    ∷ record { is_directory = true; file_name = codes "xtrackold.avi" }
    ∷ record { is_directory = false; file_name = codes "xtrack002.avi" }
    ∷ []

abbrev search : Text → List FileData
search pattern = files

abbrev dir : Text
dir = codes "C:\\"

pub listed : AllListed files
listed =
    let first : IsListed (codes "xtrack007.avi") = record {
      middle = codes "007";
      spelled = refl;
      short = omega arith;
    } in
    let second : IsListed (codes "xtrackold.avi") = record {
      middle = codes "old";
      spelled = refl;
      short = omega arith;
    } in
    let third : IsListed (codes "xtrack002.avi") = record {
      middle = codes "002";
      spelled = refl;
      short = omega arith;
    } in
    (first, (second, (third, tt)))

pub number_7 : file_number (codes "xtrack007.avi") ≡ ok (some (pos 7))
unfolding file_number
number_7 = refl

pub number_2 : file_number (codes "xtrack002.avi") ≡ ok (some (pos 2))
unfolding file_number
number_2 = refl

pub signs : HasNoNegative files
signs = ((λ k h. cc number_7), ((λ k h. cc), ((λ k h. cc number_2), tt)))

file_number_round_trip_example :
    file_number (file_prefix ++ (print_padded 3 b'0' (pos 42) ++ file_ext)) ≡ ok (some (pos 42))
file_number_round_trip_example = file_number_round_trip 42 (omega arith)

get_last_file_num_fresh_example :
    (n : ℕ) × (get_last_file_num search dir ≡ ok (pos n))
    × ((2 ^ 31 ≤ n + 1)
        ⊎ All
            (λ file.
              file.is_directory ≡ false → get_file_name dir (pos (n + 1)) ≢ dir ++ file.file_name)
            files)
get_last_file_num_fresh_example = get_last_file_num_fresh search dir listed

get_next_file_num_cyclic_example :
    (r : ℤ) × (get_next_file_num search dir (pos 5) ≡ ok r)
    × (((r ≡ negsuc 0) × All (λ file. (k : ℕ) → ¬ HasNumber file (pos k)) files)
        ⊎ ((n : ℕ) × (r ≡ pos n)
            × Any (λ file. HasNumber file (pos n)) files
            × All (λ file. (k : ℕ) → HasNumber file (pos k) → NotBefore (pos 5) n k) files))
get_next_file_num_cyclic_example = get_next_file_num_cyclic search dir (pos 5) listed signs
