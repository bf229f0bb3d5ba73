-- ===== src/Record/Ranges.antt =====
-- The number of the last file stays an int.
use xtrack.Prelude.{
  arith, ◌≡◌, ◌∙◌, refl, ap, ℕ, zero, suc, Option, none, some, List, [], ◌∷◌, ℤ, pos, negsuc, InInt,
  next_int, ok, Gives, given, endless, Gives-then, Gives-if, Gives-result,
}
use xtrack.Text.{Text}
use xtrack.Floating.{Floating}
use xtrack.OpenCv.{OpenCv}
use xtrack.Record.{
  FileData, file_number, closer, later, is_negative, last_among, next_among, get_last_file_num,
  get_next_file_num, get_file_name,
}
use xtrack.Record.Names.{file_number-InInt}
use xtrack.Record.Recorder.{CameraRecorder, start_recording}
use xtrack.Record.Player.{Found, is_empty, start_playback, next_frame}

pub none_yet : InInt (negsuc 0)
none_yet = ground arith

pub first_number : InInt (pos 0)
first_number = ground arith

pub next_int-InInt : (n : ℤ) → InInt n → InInt (next_int n)
unfolding next_int
next_int-InInt (pos n) h = ground arith
next_int-InInt (negsuc zero) h = ground arith
next_int-InInt (negsuc (suc n)) h = ground arith

later-InInt :
    (last : ℤ) (number : Option ℤ)
    → InInt last
    → ((n : ℤ) → number ≡ some n → InInt n)
    → InInt (later last number)
later-InInt last none h small = h
later-InInt last (some n) h small = let here = small n refl in ground arith

closer-InInt :
    (current next : ℤ) (number : Option ℤ)
    → InInt next
    → ((n : ℤ) → number ≡ some n → InInt n)
    → InInt (closer current next number)
closer-InInt current next none h small = h
closer-InInt current next (some n) h small = let here = small n refl in ground arith

last_among-Gives :
    (last : ℤ) (files : List FileData) → InInt last → Gives InInt (last_among last files)
unfolding last_among
last_among-Gives last [] h = given h
last_among-Gives last (file ∷ files) h =
    Gives-if file.is_directory (λ _. last_among-Gives last files h)
      (Gives-then (Gives-result (file_number file.file_name)) (λ o e.
        last_among-Gives (later last o) files
          (later-InInt last o h (λ n p. file_number-InInt file.file_name n (e ∙ ap ok p)))))

next_among-Gives :
    (current next : ℤ) (files : List FileData)
    → InInt next
    → Gives InInt (next_among current next files)
unfolding next_among
next_among-Gives current next [] h = given h
next_among-Gives current next (file ∷ files) h =
    Gives-if file.is_directory (λ _. next_among-Gives current next files h)
      (Gives-then (Gives-result (file_number file.file_name)) (λ o e.
        next_among-Gives current (closer current next o) files (
          closer-InInt current next o h (λ n p. file_number-InInt file.file_name n (e ∙ ap ok p)))))

module _ {D : Type 0} ⦃d : Floating D⦄ (cv : OpenCv D) where
  abbrev pub HasNumberInInt : CameraRecorder cv → Type 0
  HasNumberInInt r = InInt r.last_played_file_num

  pub start_recording-Gives :
      (world : cv.World) (r : CameraRecorder cv)
      → HasNumberInInt r
      → Gives (λ res. HasNumberInInt res.1) (start_recording cv world r)
  unfolding start_recording get_last_file_num
  start_recording-Gives world r h = Gives-then (last_among-Gives (pos 0) _ first_number) (λ last p.
      Gives-if
        (cv.writer_is_opened
          (cv.writer_open world (get_file_name r.video_dir (next_int last)) r.codec
            r.record_frame_rate r.record_size).0)
        (λ _. given (next_int-InInt last p)) (given h))

  pub start_playback-Gives :
      (world : cv.World) (r : CameraRecorder cv)
      → HasNumberInInt r
      → Gives (λ res. HasNumberInInt res.1) (start_playback cv world r)
  unfolding start_playback get_next_file_num
  start_playback-Gives world r h =
      Gives-then
        (Gives-if (is_negative r.last_played_file_num)
          (λ _. next_among-Gives _ (negsuc 0) _ none_yet) (given h))
        (λ number p.
          Gives-if (cv.reader_is_opened (cv.reader_open world (get_file_name r.video_dir number)))
            (λ _. given p) (given h))

  pub next_frame-Gives :
      (world : cv.World) (dir : Text) (fuel : ℕ) (found : Found cv)
      → InInt found.number
      → Gives (λ last. InInt last.number) (next_frame cv world dir fuel found)
  unfolding next_frame get_next_file_num
  next_frame-Gives world dir zero found h = endless
  next_frame-Gives world dir (suc fuel) found h =
      Gives-if (is_empty cv found.frame)
        (λ _.
          Gives-then (next_among-Gives _ (negsuc 0) _ none_yet)
            (λ number p. next_frame-Gives world dir fuel _ p))
        (given h)
