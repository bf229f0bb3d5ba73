-- ===== src/Record/Ends.antt =====
-- The search of `playbackFrame` for a frame ends where there is a video file that can be read.
use xtrack.Prelude.{
  ℕ, zero, suc, ◌+◌, ◌-◌, ◌<◌, ◌≤◌, ◌^◌, ◌≡◌, ◌≢◌, ◌∙◌, refl, sym, ap, true, false, Bool-cases, inl,
  inr, List, All-Any, Any, if◌then◌else◌, ltb, ℤ, pos, negsuc, InInt, ok, arith,
}
use xtrack.Text.{Text}
use xtrack.Floating.{Floating}
use xtrack.OpenCv.{OpenCv}
use xtrack.Record.{FileData, pattern_of, get_next_file_num, get_file_name}
use xtrack.Record.Last.{HasNumber, AllListed}
use xtrack.Record.Next.{HasNoNegative, NotBefore, Any-InInt, get_next_file_num_cyclic}
use xtrack.Record.Player.{Found, is_empty, next_frame}

-- How many numbers it takes to get from one to another, upwards and then from 0 on.
gap : ℤ → ℕ → ℕ
gap (pos c) n = if ltb c n then n - c else 2 ^ 32 + n - c
gap (negsuc c) n = n + 1

gap_pos : (c : ℤ) (n : ℕ) → InInt c → 0 < gap c n
unfolding gap
gap_pos (pos c) n h = ground arith
gap_pos (negsuc c) n h = omega arith

gap_bound : (c : ℤ) (n : ℕ) → n < 2 ^ 31 → gap c n ≤ 2 ^ 33
unfolding gap
gap_bound (pos c) n h = ground arith
gap_bound (negsuc c) n h = omega arith

gap_step :
    (c : ℤ) (m n : ℕ) → InInt c → m < 2 ^ 31 → NotBefore c m n → m ≢ n → gap (pos m) n < gap c n
unfolding gap
gap_step (pos c) m n hc hm (up, down) ne = ground (arith, up, down)
gap_step (negsuc c) m n hc hm (up, down) ne = ground (arith, up, down)

NotBefore-trans :
    (c : ℤ) (m n k : ℕ)
    → NotBefore c m n
    → NotBefore c m k
    → NotBefore (pos m) n k
    → m ≢ n
    → m ≢ k
    → NotBefore c n k
NotBefore-trans (pos c) m n k (a, b) (a', b') (a'', b'') x y = (
  λ p q. ground (arith, a, b, a', b', a'', b''),
  λ p. (ground (arith, a, b, a', b', a'', b''), ground (arith, a, b, a', b', a'', b'')),
)
NotBefore-trans (negsuc c) m n k (a, b) (a', b') (a'', b'') x y = (
  λ p q. ground (arith, a, b, a', b', a'', b''),
  λ p. (ground (arith, a, b, a', b', a'', b''), ground (arith, a, b, a', b', a'', b'')),
)

module _ {D : Type 0} ⦃d : Floating D⦄ (cv : OpenCv D) (world : cv.World) (dir : Text) where
  abbrev files_of : List FileData
  files_of = cv.search_files world (pattern_of dir)

  -- The first frame of the file with a number, and the reader behind it.
  abbrev pub opened : ℤ → Found cv
  opened number =
      let first = cv.read (cv.reader_open world (get_file_name dir number)) in
      record { frame = first.0; reader = first.1; number = number }

  -- There is a file with the number, and it gives a frame that is not empty.
  abbrev pub IsReadable : ℕ → Type 0
  IsReadable n =
      Any (λ file. HasNumber file (pos n)) files_of × (is_empty cv (opened (pos n)).frame ≡ false)

  -- What the search finds, going on from a number: the readable file that comes first.
  abbrev pub IsFirstReadable : ℤ → ℕ → Type 0
  IsFirstReadable current n = IsReadable n × ((k : ℕ) → IsReadable k → NotBefore current n k)

  module _ (listed : AllListed files_of) (signs : HasNoNegative files_of) (target : ℕ)
      (readable : IsReadable target) where
    next_is :
        (current : ℤ)
        → (m : ℕ) × (get_next_file_num (cv.search_files world) dir current ≡ ok (pos m))
          × Any (λ file. HasNumber file (pos m)) files_of
          × ((k : ℕ) → Any (λ file. HasNumber file (pos k)) files_of → NotBefore current m k)
    next_is current =
        let (r, e, found) =
          get_next_file_num_cyclic (cv.search_files world) dir current listed signs in
        elim found [
          | inl (_, none_there) ↦
              absurd (All-Any (λ file h k. h target k) files_of none_there readable.0)
          | inr (m, same, there, first) ↦ (
            m,
            e ∙ ap ok same,
            there,
            λ k there'. All-Any (λ file h x. h k x) files_of first there',
          )
        ]

    differs :
        (m n : ℕ)
        → is_empty cv (opened (pos m)).frame ≡ true
        → is_empty cv (opened (pos n)).frame ≡ false
        → m ≢ n
    differs m n unread read e =
        let same : true ≡ false =
          sym unread ∙ ap (λ x. is_empty cv (opened (pos x)).frame) e ∙ read in
        cc

    pub stops :
        (fuel : ℕ) (found : Found cv)
        → 0 < fuel
        → is_empty cv found.frame ≡ false
        → next_frame cv world dir fuel found ≡ ok found
    unfolding next_frame
    stops zero found h read = absurd (omega arith)
    stops (suc fuel) found h read = rw read refl

    first_step :
        (current : ℤ) (m n : ℕ)
        → ((k : ℕ) → Any (λ file. HasNumber file (pos k)) files_of → NotBefore current m k)
        → is_empty cv (opened (pos m)).frame ≡ true
        → IsFirstReadable (pos m) n
        → IsFirstReadable current n
    first_step current m n first unread (here, behind) = (
      here,
      λ k there.
          NotBefore-trans current m n k (first n here.0) (first k there.0) (behind k there)
            (differs m n unread here.1) (differs m k unread there.1),
    )

    search_ends :
        (fuel : ℕ) (found : Found cv)
        → InInt found.number
        → is_empty cv found.frame ≡ true
        → gap found.number target < fuel
        → (n : ℕ) × (next_frame cv world dir fuel found ≡ ok (opened (pos n)))
          × IsFirstReadable found.number n
    unfolding next_frame
    search_ends zero found fits unread enough = absurd (omega arith)
    search_ends (suc fuel) found fits unread enough =
        let (m, e, there, first) = next_is found.number in
        elim (Bool-cases (is_empty cv (opened (pos m)).frame)) [
          | inr read ↦ (
            m,
            rw (unread, e)
                (stops fuel (opened (pos m)) (omega (arith, gap_pos found.number target fits))
                  read),
            ((there, read), λ k there'. first k there'.0),
          )
          | inl empty ↦
              let nearer : gap (pos m) target < gap found.number target =
                gap_step found.number m target fits (Any-InInt files_of (pos m) there).0
                  (first target readable.0) (differs m target empty readable.1) in
              let (n, ends, here) =
                search_ends fuel (opened (pos m)) (Any-InInt files_of (pos m) there) empty
                  (omega arith) in
              (n, rw (unread, e) ends, first_step found.number m n first empty here)
        ]

    -- Where the search for a frame starts with no frame and some video file gives one, it ends within 2^33
    -- rounds, with the first frame of the file that comes first behind the last number, among those that give
    -- a frame. (Every file that the directory search gives has a name that the pattern fits and no negative
    -- number.)
    pub next_frame_ends :
        (fuel : ℕ) (found : Found cv)
        → InInt found.number
        → is_empty cv found.frame ≡ true
        → 2 ^ 33 < fuel
        → (n : ℕ) × (next_frame cv world dir fuel found ≡ ok (opened (pos n)))
          × IsFirstReadable found.number n
    next_frame_ends fuel found fits unread enough = search_ends fuel found fits unread (
        omega (arith, gap_bound found.number target (Any-InInt files_of (pos target) readable.0).0))
