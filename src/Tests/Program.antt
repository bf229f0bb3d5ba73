-- ===== src/Tests/Program.antt =====
-- Tests of the display and of `process`.
use xtrack.Prelude.{
  ◌≡◌, ◌≢◌, refl, ℕ, ◌+◌, ◌-◌, ◌≤◌, true, false, none, some, List, [], ◌∷◌, ◌++◌, pos, ok, raise,
  running, undefined, Ensures, arith,
}
use xtrack.Text.{Text, codes}
use xtrack.Text.Search.{Lacks}
use xtrack.Parameters.{Parameters}
use xtrack.Fiducials.{new_finder}
use xtrack.Fiducials.Tracked.{TrackedFiducial, fresh}
use xtrack.Record.Recorder.{playback, live, CameraRecorder}
use xtrack.Record.Player.{Found, next_frame}
use xtrack.Display.{CameraDisplay, track_names_of}
use xtrack.Display.Names.{terminated, last_name, track_names_of-terminated}
use xtrack.Display.Drawing.{corner_of}
use xtrack.Display.Placing.{corner_of_inside}
use xtrack.App.{AppState, Tick}
use xtrack.App.Setup.{Devices}
use xtrack.App.Keys.{press_key}
use xtrack.App.Safety.{IsSafe, press_key-Ensures}
use xtrack.App.Process.{process, process_defined}
use xtrack.App.Modes.{next_frame_diverges}
use xtrack.Tests.Stubs.{Number, numbers, image, cv, cv_laws, osc, sockets, lib}

abbrev narrow : Number → Number
narrow v = v

abbrev pub devices : Devices cv
devices = record {
  camera_opens = λ n. true;
  frame_size = λ w h. image 640 480;
  extract_double = λ s. none;
  fourcc = λ a b c e. pos a;
  sockets = sockets;
  writer = false;
  reader = false;
  world = [];
}

abbrev pub tick : ℕ → Tick cv
tick key = record {
  start_clock = some (pos 1000);
  frame = image 640 480;
  end_clock = some (pos 1020);
  key = pos key;
  signalled = false;
}

-- The window is there; a recording is played back and the program is quit.
abbrev with_window : Parameters
with_window = (codes "show_input", codes "true") ∷ []

abbrev ticks : List (Tick cv)
ticks = tick b'r' ∷ tick b'x' ∷ tick b'p' ∷ tick b'x' ∷ tick b'q' ∷ []

process_defined_example :
    process lib osc cv narrow (λ m. []) 3 devices ticks with_window ≢ raise undefined
process_defined_example =
    process_defined lib osc cv narrow (λ m. []) cv_laws 3 devices ticks with_window

abbrev pub window : CameraDisplay
window = record {
  track_rect_size = pos 50;
  screen_size = image 640 480;
  track_names = codes "robot" ∷ [];
}

abbrev pub recorder : CameraRecorder cv
recorder = record {
  video_writer = true;
  video_reader = false;
  video_dir = codes "C:\\";
  record_frame_rate = some (pos 25);
  frame_rate_ratio = some (pos 1);
  frame_progress = some (some (pos 0));
  codec = pos 1;
  orig_size = record { width = pos 640; height = pos 480 };
  record_size = record { width = pos 640; height = pos 480 };
  last_played_file_num = pos 1;
  last_played_frame = live (image 640 480);
}

abbrev pub playing : AppState Number Number lib cv
playing = record {
  finder = new_finder lib (image 2 2);
  server = record { ipaddr = codes "127.0.0.1"; port = 3333; fseq = pos 0; sock = pos 7 };
  recorder = recorder;
  display = some window;
  record_mode = playback;
  display_mat = image 0 0;
  term_requested = false;
  world = record { is_directory = false; file_name = codes "xtrack001.avi" } ∷ [];
}

press_key-Ensures_example : Ensures IsSafe (press_key (pos b's') playing)
press_key-Ensures_example = press_key-Ensures (pos b's') playing (tt, tt, tt)

abbrev nothing_found : Found cv
nothing_found = record { frame = image 0 0; reader = false; number = pos 1 }

next_frame_diverges_example : next_frame cv [] (codes "C:\\") 5 nothing_found ≡ running
next_frame_diverges_example =
    next_frame_diverges cv [] (codes "C:\\") 5 nothing_found (λ pattern. refl) refl refl refl

abbrev table : List (TrackedFiducial Number Number)
table = record fresh { is_tracked = true } ∷ record fresh { is_tracked = true } ∷ []

corner_of_inside_example :
    (x : ℕ) × (y : ℕ) × (corner_of cv window 480 480 ≡ record { x = pos x; y = pos y })
    × (x + 480 ≤ window.screen_size.width)
    × (y + 480 ≤ window.screen_size.height)
    × (window.screen_size.width - (x + 480) ≤ x + 1)
    × (x ≤ window.screen_size.width - (x + 480))
    × (window.screen_size.height - (y + 480) ≤ y + 1)
    × (y ≤ window.screen_size.height - (y + 480))
corner_of_inside_example = corner_of_inside cv window 480 480 (omega arith) (omega arith)

abbrev names : List Text
names = codes "red" ∷ [] ∷ codes "blue" ∷ []

red-Lacks : Lacks b',' (codes "red")
red-Lacks = ((λ e. cc), ((λ e. cc), ((λ e. cc), tt)))

blue-Lacks : Lacks b',' (codes "blue")
blue-Lacks = ((λ e. cc), ((λ e. cc), ((λ e. cc), ((λ e. cc), tt))))

track_names_of-terminated_example :
    track_names_of (terminated names (codes "red")) ≡ ok (names ++ last_name (codes "red"))
track_names_of-terminated_example =
    track_names_of-terminated names (codes "red") (red-Lacks, (tt, (blue-Lacks, tt))) red-Lacks
