-- ===== src/Tests/Runs.antt =====
-- Tests of the rounds of a run.
use xtrack.Prelude.{
  arith, ◌≡◌, refl, true, false, none, some, List, [], ◌∷◌, pos, ok, ◌>>=◌, Gives, Yields, Returns,
}
use xtrack.Text.{codes}
use xtrack.Parameters.{Parameters}
use xtrack.Parameters.{put}
use xtrack.Text.{Text, find_first_of, substr}
use xtrack.CommandLine.{status, main, add_param, add_params}
use xtrack.Fiducials.Libfidtrack.{FiducialX}
use xtrack.Record.Names.{IsListed}
use xtrack.Record.Recorder.{normal}
use xtrack.App.{Config, AppState, Tick}
use xtrack.App.Keys.{press_key}
use xtrack.App.Setup.{set_up}
use xtrack.App.Loop.{cut_frame, gray_of, process_loop}
use xtrack.App.Total.{press_key-Returns}
use xtrack.App.Refusal.{ReturnsOrOne, set_up_refusal}
use xtrack.App.Sending.{Seen, round, last_round, Sends, IsRun, process_loop_sends}
use xtrack.App.Datagrams.{IsSent, process_datagrams}
use xtrack.App.Process.{process}
use xtrack.App.Returning.{main_headless}
use xtrack.Parameters.{int_param, bool_param, string_param, double_param, find}
use xtrack.Parameters.Names.{param_record_fps_scale}
use xtrack.Fiducials.{new_finder}
use xtrack.Tuio.{open_server, to_unsigned_short}
use xtrack.Record.Recorder.{new_recorder, frame_time_of, rate_of, dir_of, codec_of, unset}
use xtrack.App.Setup.{Devices, read_config, optional_display}
use xtrack.Text.{at}
use xtrack.Prelude.{negsuc}
use xtrack.Tests.Stubs.{image, Number, numbers, cv, osc, lib}
use xtrack.Tests.Program.{devices, tick, playing}

abbrev pub narrow : Number → Number
narrow v = v

-- Every image shows the fiducial 1.
abbrev pub shown : List (FiducialX Number)
shown = record { id = pos 1; x = some (pos 2); y = some (pos 3); angle = some (pos 1) } ∷ []

abbrev pub config : Config
config = record {
  frame_time = pos 40;
  threshold = pos 100;
  rotate_image = true;
  make_quadratic = true;
  show_input_window = false;
  show_contrast_window = true;
  print_data = true;
  arena_radius = pos 200;
}

abbrev pub ticks : List (Tick cv)
ticks = tick b'x' ∷ tick b's' ∷ tick b'q' ∷ []

abbrev images : List (List (FiducialX Number) × Number)
images = (shown, some (pos 1000)) ∷ (shown, some (pos 1000)) ∷ (shown, some (pos 1000)) ∷ []

process_loop_sends_example :
    Gives
      (IsRun lib osc cv narrow (λ m. shown) config ticks playing)
      (process_loop lib osc cv narrow (λ m. shown) 3 config ticks playing)
process_loop_sends_example =
    process_loop_sends lib osc cv narrow (λ m. shown) 3 config ticks playing refl

abbrev pub converting : Devices cv
converting = record devices {
  extract_double = λ s. some (some (pos 1));
  frame_size = λ w h. image 4 4;
}

-- The factor of the frame rate is set, and the rest left at its default.
abbrev pub full_rate : Parameters
full_rate = (param_record_fps_scale, codes "1") ∷ []

abbrev pub settings : Config
settings = record {
  frame_time = pos 33;
  threshold = pos 128;
  rotate_image = false;
  make_quadratic = false;
  show_input_window = false;
  show_contrast_window = false;
  print_data = false;
  arena_radius = pos 100;
}

abbrev pub set : AppState Number Number lib cv
set = record {
  finder = new_finder lib (image 4 4);
  server = record { ipaddr = codes "127.0.0.1"; port = 3333; fseq = pos 0; sock = pos 7 };
  recorder = record {
    video_writer = false;
    video_reader = false;
    video_dir = codes ".\\";
    record_frame_rate = some (pos 30);
    frame_rate_ratio = some (pos 1);
    frame_progress = none;
    codec = pos b'P';
    orig_size = record { width = pos 4; height = pos 4 };
    record_size = record { width = pos 0; height = pos 0 };
    last_played_file_num = negsuc 0;
    last_played_frame = unset;
  };
  display = none;
  record_mode = normal;
  display_mat = image 0 0;
  term_requested = false;
  world = [];
}

pub is_set : set_up lib cv converting full_rate ≡ ok (settings, set)
unfolding set_up int_param bool_param string_param double_param find read_config optional_display
    open_server to_unsigned_short new_recorder frame_time_of rate_of dir_of codec_of at
is_set = refl

shown-Seen : Seen lib cv (λ m. shown) settings ticks images
unfolding cut_frame gray_of
shown-Seen = round refl refl refl (round refl refl refl (last_round refl refl refl))

abbrev arguments : List Text
arguments = codes "recfpsscale=1" ∷ codes "=" ∷ []

are_read : add_params [] arguments ≡ ok full_rate
unfolding add_params add_param find_first_of substr put
are_read = refl

main_headless_example :
    Yields
      (Sends lib osc cv narrow (λ m. shown) set.finder set.server images)
      (process_loop lib osc cv narrow (λ m. shown) 3 settings ticks set)
    × (main (process lib osc cv narrow (λ m. shown) 3 converting ticks) arguments ≡ status 0)
main_headless_example =
    main_headless lib osc cv narrow (λ m. shown) 3 converting arguments full_rate images settings
      set are_read is_set refl shown-Seen (refl, (refl, (refl, tt)))

xtrack001-IsListed : IsListed (codes "xtrack001.avi")
xtrack001-IsListed = record { middle = codes "001"; spelled = refl; short = omega arith }

press_key-Returns_example : Returns (press_key (pos b's') playing)
press_key-Returns_example =
    press_key-Returns (pos b's') playing (tt, tt, tt) (xtrack001-IsListed, tt)

set_up_refusal_example :
    (qs : Parameters) × (add_params [] (codes "camera=1" ∷ codes "frame_time=x" ∷ []) ≡ ok qs)
    × ReturnsOrOne (set_up lib cv devices qs)
set_up_refusal_example =
    set_up_refusal lib cv devices (codes "camera=1" ∷ codes "frame_time=x" ∷ [])

process_datagrams_example : Gives (IsSent lib osc cv narrow (λ m. shown) devices ticks [] 7) (do
  start ← set_up lib cv devices []
  res ← process_loop lib osc cv narrow (λ m. shown) 3 start.0 ticks start.1
  ok (start, res))
process_datagrams_example =
    process_datagrams lib osc cv narrow (λ m. shown) 3 devices ticks [] 7 refl (omega arith)
