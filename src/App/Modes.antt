-- ===== src/App/Modes.antt =====
-- The modes as a state machine whose steps are the keys, the waiting time, and a search that never ends.
use xtrack.Prelude.{
  ◌≡◌, ◌⊎◌, refl, ℕ, zero, suc, true, false, inl, inr, [], if◌then◌else◌, ℤ, pos, negsuc, leb_ℤ,
  ◌+ℤ◌, ◌-ℤ◌, ◌≤ℤ◌, running, arith,
}
use xtrack.Text.{Text}
use xtrack.Floating.{Floating, ◌⊕◌, ◌⊖◌}
use xtrack.OpenCv.{OpenCv}
use xtrack.Fiducials.Libfidtrack.{FidTrack}
use xtrack.Record.{get_next_file_num, get_file_name, next_among}
use xtrack.Record.Recorder.{RecordMode, normal, recording, playback}
use xtrack.Record.Player.{Found, is_empty, next_frame}
use xtrack.Record.Playback.{IsPresent}
use xtrack.App.{AppState}
use xtrack.App.Keys.{wait_time, key_is}

-- What a key may do to the mode: s always leads to NORMAL, and the playback needs a display.
pub data ModeStep (has_display : Type 0) : ℤ → RecordMode → RecordMode → Type 0 where
  stay : {key : ℤ} {m : RecordMode} → key_is key b's' ≡ false → ModeStep has_display key m m
  record_pressed : ModeStep has_display (pos b'r') normal recording
  stop_pressed : {m : RecordMode} → ModeStep has_display (pos b's') m normal
  play_pressed : has_display → ModeStep has_display (pos b'p') normal playback
  play_pressed_recording : has_display → ModeStep has_display (pos b'p') recording playback

IsWaiting : ℤ → ℤ → ℤ → Type 0
IsWaiting frame_time elapsed time =
    (pos 1 ≤ℤ time) × ((time ≡ pos 1) ⊎ (time +ℤ elapsed ≡ frame_time))

sub_add : (a b : ℤ) → a -ℤ b +ℤ b ≡ a
unfolding ◌+ℤ◌ ◌-ℤ◌
sub_add (pos a) (pos b) = ground arith
sub_add (pos a) (negsuc b) = ground arith
sub_add (negsuc a) (pos b) = ground arith
sub_add (negsuc a) (negsuc b) = ground arith

positive : (n : ℕ) → leb_ℤ (pos (suc n)) (pos 0) ≡ false
positive n = ground arith

negative : (n : ℕ) → leb_ℤ (negsuc n) (pos 0) ≡ true
negative n = ground arith

waiting :
    (frame_time elapsed time : ℤ)
    → time +ℤ elapsed ≡ frame_time
    → IsWaiting frame_time elapsed (if leb_ℤ time (pos 0) then pos 1 else time)
unfolding IsWaiting
waiting frame_time elapsed (pos zero) h = (omega arith, inl refl)
waiting frame_time elapsed (pos (suc n)) h = rw (positive n) (omega arith, inr h)
waiting frame_time elapsed (negsuc n) h = rw (negative n) (omega arith, inl refl)

module _ {F D : Type 0} ⦃d : Floating D⦄ {lib : FidTrack F} {cv : OpenCv D} where
  abbrev Steps : ℤ → AppState F D lib cv → AppState F D lib cv → Type 0
  Steps key s s' = ModeStep (IsPresent s.display) key s.record_mode s'.record_mode

module _ {D : Type 0} ⦃d : Floating D⦄ where
  -- The time to wait is positive, so that `waitKey` never waits for ever, and unless it is 1 it makes up the
  -- frame time together with the milliseconds that passed.
  wait_time_positive :
      (frame_time : ℤ) (start_clock end_clock : D)
      → (pos 1 ≤ℤ wait_time frame_time start_clock end_clock)
        × ((wait_time frame_time start_clock end_clock ≡ pos 1)
            ⊎ (wait_time frame_time start_clock end_clock
                  +ℤ d.to_int (end_clock ⊖ start_clock ⊕ d.literal 5 10)
                ≡ frame_time))
  unfolding wait_time IsWaiting
  wait_time_positive frame_time start_clock end_clock =
      waiting frame_time _ _ (sub_add frame_time _)

module _ {D : Type 0} ⦃d : Floating D⦄ (cv : OpenCv D) where
  -- Where a directory has no video file and the file of the number -1 gives no frame, playback opens that
  -- file again and again: no number of rounds is enough.
  pub next_frame_diverges :
      (world : cv.World) (dir : Text) (fuel : ℕ) (found : Found cv)
      → ((pattern : Text) → cv.search_files world pattern ≡ [])
      → (cv.read (cv.reader_open world (get_file_name dir (negsuc 0)))).0 ≡ cv.empty_mat
      → is_empty cv cv.empty_mat ≡ true
      → is_empty cv found.frame ≡ true
      → next_frame cv world dir fuel found ≡ running
  unfolding next_frame get_next_file_num next_among
  next_frame_diverges world dir zero found h unread e e' = refl
  next_frame_diverges world dir (suc fuel) found h unread e e' =
      rw (e', h) (next_frame_diverges world dir fuel _ h unread e (rw unread e))
