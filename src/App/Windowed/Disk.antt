-- ===== src/App/Windowed/Disk.antt =====
-- A recording that is started leaves the directory with videos, and with room for one recording less.
use mathlib.Core.Path.{subst}
use xtrack.Prelude.{
  ℕ, suc, ◌+◌, ◌<◌, ◌≤◌, ◌^◌, ◌≡◌, ◌∙◌, refl, sym, ap, inl, inr, List, [], ◌∷◌, All, All-Any,
  All-map, Any, ℤ, pos, negsuc, next_int, next_int-pos, ok, ok_injective, arith,
}
use xtrack.Text.{Text, print_padded}
use xtrack.Text.Decimal.{length-print_padded}
use xtrack.Floating.{Floating}
use xtrack.OpenCv.{OpenCv, CvSize}
use xtrack.Record.{FileData, pattern_of, get_last_file_num, get_file_name}
use xtrack.Record.Names.{IsListed, file_number_round_trip}
use xtrack.Record.Last.{HasNumber, AllBelow, get_last_file_num_bound}
use xtrack.App.Windowed.{written, HasVideos, HasRoom, WriterLaws}

All-at {κ} :
    {A : Type 0} {P : A → Type κ} (xs : List A) → ((x : A) → Any (λ y. y ≡ x) xs → P x) → All P xs
All-at [] h = tt
All-at (x ∷ xs) h = (h x (inl refl), All-at xs (λ y k. h y (inr k)))

Any-some :
    {A : Type 0} {P : A → Type 0} (xs : List A) → Any P xs → (x : A) × Any (λ y. y ≡ x) xs × P x
Any-some [] h = absurd h
Any-some (x ∷ xs) (inl h) = (x, inl refl, h)
Any-some (x ∷ xs) (inr h) = let (y, here, p) = Any-some xs h in (y, inr here, p)

Any-at : {A : Type 0} (P : A → Type 0) (xs : List A) (x : A) → Any (λ y. y ≡ x) xs → P x → Any P xs
Any-at P [] x h p = absurd h
Any-at P (y ∷ xs) x (inl e) p = inl (subst P (sym e) p)
Any-at P (y ∷ xs) x (inr h) p = inr (Any-at P xs x h p)

written-IsListed : (n : ℕ) → IsListed (written n).file_name
written-IsListed n = record {
  middle = print_padded 3 b'0' (pos n);
  spelled = refl;
  short = omega (arith, length-print_padded 3 n);
}

written-number : (n : ℕ) (k : ℤ) → n < 2 ^ 31 → HasNumber (written n) k → k ≡ pos n
written-number n k small h = let e = file_number_round_trip n small in let e' = h.1 in cc

module _ {D : Type 0} ⦃d : Floating D⦄ (cv : OpenCv D) (dir : Text) (laws : WriterLaws cv dir)
    (world : cv.World) (codec : ℤ) (rate : D) (size : CvSize) where
  abbrev after : ℤ → cv.World
  after number = (cv.writer_open world (get_file_name dir number) codec rate size).1

  abbrev files : cv.World → List FileData
  files w = cv.search_files w (pattern_of dir)

  holds_after :
      (P : FileData → Type 0) (n : ℕ)
      → n < 2 ^ 31
      → All P (files world)
      → P (written n)
      → All P (files (after (pos n)))
  holds_after P n small old new = All-at _ (λ file there.
      elim (laws.listed_after world n codec rate size file small there) [
        | inl before ↦ All-Any (λ g p e. subst P e p) (files world) old before
        | inr e ↦ subst P (sym e) new
      ])

  after-HasVideos :
      (n : ℕ)
      → n + 1 < 2 ^ 31
      → AllBelow n (files world)
      → HasVideos cv dir world
      → HasVideos cv dir (after (pos (n + 1)))
  after-HasVideos n small below (listed, signs, (t, (there, read))) = (
    holds_after (λ file. IsListed file.file_name) (n + 1) small listed (written-IsListed (n + 1)),
    holds_after (λ file. (k : ℕ) → ¬ HasNumber file (negsuc k)) (n + 1) small signs
        (λ k h. let e = written-number (n + 1) (negsuc k) small h in cc),
    (
      t,
      (
        (let (file, here, number) = Any-some (files world) there in
            Any-at (λ g. HasNumber g (pos t)) _ file
              (laws.kept_after world (n + 1) codec rate size file small here) number),
        laws.read_after world (n + 1) t codec rate size small
            (λ e.
              All-Any (λ file h k. let le = h t k in absurd (omega (arith, e, le))) (files world)
                below there)
            read,
      ),
    ),
  )

  pub started_room :
      (count : ℕ) (last : ℤ)
      → get_last_file_num (cv.search_files world) dir ≡ ok last
      → HasVideos cv dir world
      → HasRoom cv (suc count) dir world
      → HasVideos cv dir (after (next_int last)) × HasRoom cv count dir (after (next_int last))
  started_room count last found videos (bound, small, below) =
      let (n, e, highest, le) =
        get_last_file_num_bound (cv.search_files world) dir videos.0 bound below in
      let fits : n + 1 < 2 ^ 31 = omega arith in
      let next : pos (n + 1) ≡ next_int last =
        sym (next_int-pos n fits) ∙ ap next_int (ok_injective (sym e ∙ found)) in
      subst (λ number. HasVideos cv dir (after number) × HasRoom cv count dir (after number)) next
        (
          after-HasVideos n fits highest videos,
          (
            n + 1,
            omega arith,
            holds_after (λ file. (k : ℕ) → HasNumber file (pos k) → k ≤ n + 1) (n + 1) fits
                (All-map (λ file h k p. let here = h k p in omega arith) (files world) highest)
                (λ k h. let same = written-number (n + 1) (pos k) fits h in ground (arith, same)),
          ),
        )
