-- ===== src/Tests/Windows.antt =====
-- Tests of what is sent, and of what is shown while a run records or plays back.
use xtrack.Prelude.{◌≡◌, some, pos, refl, List, [], ◌∷◌, ok, ◌>>=◌, Gives, Returns, result}
use xtrack.Record.Recorder.{recording, record_frame}
use xtrack.App.{AppState, Tick}
use xtrack.App.Loop.{
  process_loop, finish, process_frame, cut_frame, show_input, run_recorder, contrast_image,
}
use xtrack.App.Keys.{press_key, press_record}
use xtrack.Display.Drawing.{draw_name, draw_fiducial, draw_tracking_info, display_tracked_image}
use xtrack.Fiducials.{mark_lost, transfer, transfer_one, new_finder, mark, touch, find_fiducials}
use xtrack.Fiducials.Tracked.{update, is_nan}
use xtrack.Tuio.{send_message}
use xtrack.App.Shown.{rounds_of}
use xtrack.App.Filming.{Recorded, process_loop_records}
use xtrack.App.Viewing.{IsViewed, process_loop_shows}
use xtrack.Tests.Stubs.{Number, numbers, cv, osc, lib}
use xtrack.Tests.Program.{tick, playing, window}
use xtrack.App.Sending.{Seen, round, last_round}
use xtrack.App.Outputs.{datagrams_of}
use xtrack.App.Observed.{process_observed}
use xtrack.App.Loop.{gray_of}
use xtrack.Fiducials.Run.{found_all}
use xtrack.Fiducials.Tracked.{fresh}
use xtrack.Fiducials.Libfidtrack.{FiducialX}
use xtrack.Tuio.Observed.{observed}
use xtrack.Tests.Runs.{narrow, shown, config, converting, full_rate, settings, set, is_set}

abbrev filming : AppState Number Number lib cv
filming = record playing { record_mode = recording }

-- The key r does nothing here, and q ends the run.
abbrev keys : List (Tick cv)
keys = tick b'x' ∷ tick b'r' ∷ tick b'q' ∷ []

process_loop_records_example :
    Gives (Recorded lib osc cv narrow (λ m. shown) window (rounds_of cv keys) filming) (do
      res ← process_loop lib osc cv narrow (λ m. shown) 3 config keys filming
      r ← finish lib osc cv narrow (λ m. shown) res.0
      ok (r, res.1))
process_loop_records_example =
    process_loop_records lib osc cv narrow (λ m. shown) window 3 config keys filming
      ((refl, refl), ((refl, refl), ((refl, refl), tt))) (refl, refl) refl

process_loop_shows_example :
    Gives
      (IsViewed lib osc cv narrow (λ m. shown) window (rounds_of cv keys) 3 playing)
      (process_loop lib osc cv narrow (λ m. shown) 3 config keys playing)
process_loop_shows_example =
    process_loop_shows lib osc cv narrow (λ m. shown) window 3 config keys playing
      (refl, (refl, (refl, tt))) (refl, refl) refl

-- The run of the test gives a result.
filming_ends : Returns (process_loop lib osc cv narrow (λ m. shown) 3 config keys filming)
unfolding process_loop process_frame cut_frame show_input run_recorder draw_tracking_info
    display_tracked_image record_frame press_key press_record contrast_image find_fiducials
    send_message mark_lost transfer transfer_one new_finder mark touch update is_nan draw_fiducial
    draw_name
filming_ends = result _

-- The clock goes on by a second in each round.
abbrev clocked : List (Tick cv)
clocked =
    record (tick b'x') { start_clock = some (pos 1000) }
    ∷ record (tick b's') { start_clock = some (pos 2000) }
    ∷ record (tick b'q') { start_clock = some (pos 3000) }
    ∷ []

abbrev images : List (List (FiducialX Number) × Number)
images = (shown, some (pos 1000)) ∷ (shown, some (pos 2000)) ∷ (shown, some (pos 3000)) ∷ []

clocked-Seen : Seen lib cv (λ m. shown) settings clocked images
unfolding cut_frame gray_of
clocked-Seen = round refl refl refl (round refl refl refl (last_round refl refl refl))

process_observed_example :
    Gives
      (λ res.
        datagrams_of res.1
        ≡ observed lib osc narrow set.server set.finder.fsize
            (λ i. fresh)
            (found_all lib narrow set.finder.segmenter set.finder.fidtracker images))
      (process_loop lib osc cv narrow (λ m. shown) 3 settings clocked set)
process_observed_example =
    process_observed lib osc cv narrow (λ m. shown) 3 converting full_rate images settings set
      is_set clocked-Seen
      (
        refl,
        refl,
        (refl, refl, (refl, refl, tt, tt), (refl, refl, tt, tt)),
        (refl, refl, (refl, refl, tt, tt), (refl, refl, tt, tt)),
      )
