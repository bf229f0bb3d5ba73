-- ===== src/Record/Playback.antt =====
-- What the recorder's operations do to its pointer and its progress.
use xtrack.Prelude.{
  ◌≡◌, refl, ℕ, zero, suc, Bool, true, false, Bool-cases, inl, inr, Option, none, some, List, [],
  ◌∷◌, if◌then◌else◌, ℤ, ok, ◌>>=◌, Ensures, returns, raises, runs, IsDefined, out_of_range,
  Ensures-bind, Ensures-if, length, ltb,
}
use xtrack.Text.{Text, substr}
use xtrack.Floating.{Floating}
use xtrack.OpenCv.{OpenCv, OpenCvLaws}
use xtrack.Record.{
  FileData, file_number, next_among, last_among, later, closer, get_next_file_num,
  get_last_file_num, is_negative,
}
use xtrack.Record.Recorder.{
  CameraRecorder, deleted, pointed, initialized, FramePointer, unset, null, live, freed,
  start_recording, record_frame,
}
use xtrack.Record.Player.{start_playback, playback_frame, stop_playback, next_frame, Found}

abbrev pub IsLive : {M : Type 0} → FramePointer M → Type 0
IsLive unset = ⊥
IsLive null = ⊥
IsLive (live m) = Unit
IsLive freed = ⊥

abbrev pub IsPresent {ℓ} : {A : Type ℓ} → Option A → Type 0
IsPresent none = ⊥
IsPresent (some a) = Unit

pub substr-IsDefined : (s : Text) (start count : ℕ) → IsDefined (substr s start count)
unfolding substr
substr-IsDefined s start count = elim (Bool-cases (ltb (length s) start)) [
  | inl past ↦ rw past (raises out_of_range (λ e. cc))
  | inr inside ↦ rw inside (returns _ tt)
]

file_number-IsDefined : (name : Text) → IsDefined (file_number name)
unfolding file_number
file_number-IsDefined name = Ensures-bind (substr-IsDefined name _ _) (λ s _. returns _ tt)

last_among-IsDefined : (last : ℤ) (files : List FileData) → IsDefined (last_among last files)
unfolding last_among
last_among-IsDefined last [] = returns last tt
last_among-IsDefined last (file ∷ files) =
    elim file.is_directory
      as (λ b. IsDefined (
        if b
        then last_among last files
        else file_number file.file_name >>= λ n. last_among (later last n) files)) [
          | true ↦ last_among-IsDefined last files
          | false ↦
              Ensures-bind (file_number-IsDefined file.file_name)
                (λ n _. last_among-IsDefined (later last n) files)
        ]

next_among-IsDefined :
    (current next : ℤ) (files : List FileData) → IsDefined (next_among current next files)
unfolding next_among
next_among-IsDefined current next [] = returns next tt
next_among-IsDefined current next (file ∷ files) =
    elim file.is_directory
      as (λ b. IsDefined (
        if b
        then next_among current next files
        else file_number file.file_name >>= λ n.
            next_among current (closer current next n) files)) [
              | true ↦ next_among-IsDefined current next files
              | false ↦
                  Ensures-bind (file_number-IsDefined file.file_name)
                    (λ n _. next_among-IsDefined current (closer current next n) files)
            ]

deleted-Ensures :
    {M : Type 0} (p : FramePointer M) → IsLive p → Ensures (λ q. ¬ IsLive q) (deleted p)
deleted-Ensures unset h = absurd h
deleted-Ensures null h = absurd h
deleted-Ensures (live m) h = returns freed (λ x. x)
deleted-Ensures freed h = absurd h

pointed-IsDefined : {M : Type 0} (p : FramePointer M) → IsLive p → IsDefined (pointed p)
pointed-IsDefined unset h = absurd h
pointed-IsDefined null h = absurd h
pointed-IsDefined (live m) h = returns m tt
pointed-IsDefined freed h = absurd h

initialized-IsDefined {ℓ} : {A : Type ℓ} (o : Option A) → IsPresent o → IsDefined (initialized o)
initialized-IsDefined none h = absurd h
initialized-IsDefined (some a) h = returns a tt

module _ {D : Type 0} ⦃d : Floating D⦄ (cv : OpenCv D) where
  -- A recording that starts has its progress set, and the pointer is left alone.
  abbrev pub Starts : CameraRecorder cv → Bool × CameraRecorder cv × cv.World → Type 0
  Starts r res =
      (res.0 ≡ true → IsPresent res.1.frame_progress)
      × (res.1.last_played_frame ≡ r.last_played_frame)

  pub start_recording-Ensures :
      (world : cv.World) (r : CameraRecorder cv) → Ensures (Starts r) (start_recording cv world r)
  unfolding start_recording get_last_file_num
  start_recording-Ensures world r =
      Ensures-bind (last_among-IsDefined _ _)
        (λ n _. Ensures-if _ (returns _ ((λ _. tt), refl)) (returns _ ((λ e. cc), refl)))

  abbrev pub IsProgressing : CameraRecorder cv → CameraRecorder cv → Type 0
  IsProgressing r r' = IsPresent r'.frame_progress × (r'.last_played_frame ≡ r.last_played_frame)

  -- A playback that starts has its progress set and its pointer live; one that does not leaves both alone.
  abbrev pub Plays : CameraRecorder cv → Bool × CameraRecorder cv → Type 0
  Plays r res =
      (res.0 ≡ true → IsLive res.1.last_played_frame × IsPresent res.1.frame_progress)
      × (res.0 ≡ false
          → (res.1.last_played_frame ≡ r.last_played_frame)
            × (res.1.frame_progress ≡ r.frame_progress))

  number_of-IsDefined :
      (world : cv.World) (dir : Text) (n : ℤ)
      → IsDefined (if is_negative n then get_next_file_num (cv.search_files world) dir n else ok n)
  unfolding get_next_file_num
  number_of-IsDefined world dir n = Ensures-if _ (next_among-IsDefined _ _ _) (returns n tt)

  pub start_playback-Ensures :
      (world : cv.World) (r : CameraRecorder cv) → Ensures (Plays r) (start_playback cv world r)
  unfolding start_playback
  start_playback-Ensures world r =
      Ensures-bind (number_of-IsDefined world r.video_dir r.last_played_file_num) (λ n _.
        Ensures-if _ (returns _ ((λ _. (tt, tt)), λ e. cc))
          (returns _ ((λ e. cc), λ _. (refl, refl))))

  -- The pointer is freed, if it was live.
  pub stop_playback-Ensures :
      (r : CameraRecorder cv)
      → IsLive r.last_played_frame
      → Ensures (λ r'. ¬ IsLive r'.last_played_frame) (stop_playback cv r)
  unfolding stop_playback
  stop_playback-Ensures r h =
      Ensures-bind (deleted-Ensures r.last_played_frame h) (λ p e. returns _ e)

  module _ (laws : OpenCvLaws cv) where
    pub record_frame-Ensures :
        (r : CameraRecorder cv) (frame : cv.Mat)
        → IsPresent r.frame_progress
        → Ensures (IsProgressing r) (record_frame cv r frame)
    unfolding record_frame
    record_frame-Ensures r frame h =
        Ensures-bind (initialized-IsDefined r.frame_progress h) (λ before _.
          Ensures-if _
            (Ensures-bind (laws.resize_defined frame r.record_size)
              (λ resized _. returns _ (tt, refl)))
            (returns _ (tt, refl)))

    next_frame-IsDefined :
        (world : cv.World) (dir : Text) (fuel : ℕ) (found : Found cv)
        → IsDefined (next_frame cv world dir fuel found)
    unfolding next_frame get_next_file_num
    next_frame-IsDefined world dir zero found = runs
    next_frame-IsDefined world dir (suc fuel) found =
        Ensures-if _
          (Ensures-bind (next_among-IsDefined _ _ _) (λ n _. next_frame-IsDefined world dir fuel _))
          (returns found tt)

    -- The pointer is live again, if it was live.
    pub playback_frame-Ensures :
        (world : cv.World) (fuel : ℕ) (r : CameraRecorder cv)
        → IsPresent r.frame_progress
        → IsLive r.last_played_frame
        → Ensures
            (λ res. IsLive res.1.last_played_frame × IsPresent res.1.frame_progress)
            (playback_frame cv world fuel r)
    unfolding playback_frame
    playback_frame-Ensures world fuel r h l =
        Ensures-bind (initialized-IsDefined r.frame_progress h) (λ before _.
          Ensures-if _
            (Ensures-bind (deleted-Ensures r.last_played_frame l) (λ _ _.
              Ensures-bind (next_frame-IsDefined world r.video_dir fuel _) (λ found _.
                Ensures-bind (laws.resize_defined found.frame r.orig_size)
                  (λ output _. returns _ (tt, tt)))))
            (Ensures-bind (pointed-IsDefined r.last_played_frame l) (λ shown _. returns _ (l, tt))))
