-- ===== src/Tests/Showing.antt =====
-- Tests of a whole run with the window.
use mathlib.Core.Path.{subst}
use xtrack.Prelude.{
  sym, ◌⊎◌, inr, Any, arith, ◌≡◌, ◌<◌, ◌+◌, ◌^◌, ℕ, refl, true, false, none, some, List, [], ◌∷◌,
  pos, negsuc, inl, ok, result, Yields,
}
use xtrack.Text.{Text, codes, find_first_of, substr, at}
use xtrack.Parameters.{Parameters, put, int_param, bool_param, string_param, double_param, find}
use xtrack.Parameters.Names.{param_record_fps_scale, param_record_scale, param_show_input}
use xtrack.CommandLine.{status, main, add_param, add_params}
use xtrack.Fiducials.{new_finder}
use xtrack.Fiducials.Tracked.{Size}
use xtrack.Fiducials.Libfidtrack.{FiducialX}
use xtrack.OpenCv.{OpenCv, OpenCvLaws}
use xtrack.Tuio.{open_server, to_unsigned_short}
use xtrack.Record.{FileData, get_file_name}
use xtrack.Record.Recorder.{normal, new_recorder, frame_time_of, rate_of, dir_of, codec_of, unset}
use xtrack.Display.{CameraDisplay, new_display, track_names_of, split_names}
use xtrack.App.{Config, AppState, Tick}
use xtrack.App.Setup.{Devices, read_config, optional_display, set_up}
use xtrack.App.Loop.{cut_frame, gray_of, process_loop}
use xtrack.App.Process.{process}
use xtrack.App.Sending.{Seen, round, last_round, Sends}
use xtrack.App.Windowed.{
  sized, HasSize, IsFilled, SizeLaws, HasVideos, HasRoom, WriterLaws, written,
}
use xtrack.App.Windowed.Run.{main_windowed}
use xtrack.Tests.Stubs.{image, Number, numbers, cv, cv_laws, osc, sockets, lib}
use xtrack.Tests.Files.{files, listed, signs, number_7, number_2}
use xtrack.Tests.Runs.{narrow, shown}

-- The name of a file in the directory ".\\".
abbrev name_in : Text → Text
name_in (a ∷ b ∷ name) = name
name_in name = name

-- The names of the files are those in the directory.
abbrev disk : OpenCv Number
disk = record cv {
  writer_open = λ world name codec rate s.
      (true, record { is_directory = false; file_name = name_in name } ∷ world);
}

refusals : OpenCvLaws disk
refusals = record {
  released = cv_laws.released;
  resize_empty = cv_laws.resize_empty;
  resize_defined = cv_laws.resize_defined;
  sub_image_defined = cv_laws.sub_image_defined;
  copy_into_defined = cv_laws.copy_into_defined;
}

resize_filled_lem :
    (m : Size) (w h : ℕ)
    → IsFilled disk m
    → 0 < w
    → 0 < h
    → (n : Size) × (disk.resize m (sized w h) ≡ ok n) × HasSize disk w h n
resize_filled_lem m w h filled a b = (image w h, ground arith, (refl, refl))

size_laws : SizeLaws disk
size_laws = record {
  new_mat_size = λ w h. (refl, refl);
  sub_image_inside = λ m x y w h a b. (image w h, refl, (refl, refl));
  resize_filled = resize_filled_lem;
  copy_inside = λ m n x y w h a b. result n;
  turn_round_size = λ m. (refl, refl);
  poly_size = λ m points c. (refl, refl);
  lines_size = λ m points c t. (refl, refl);
  text_size_kept = λ m text p c. (refl, refl);
}

opens :
    (world : List FileData) (n : ℕ)
    → ◌≡◌ {A = List FileData}
        (record { is_directory = false; file_name = name_in (get_file_name (codes ".\\") (pos n)) }
          ∷ world)
        (written n ∷ world)
unfolding get_file_name
opens world n = refl

listed_lem :
    (world : List FileData) (n : ℕ) (file : FileData)
    → Any (λ g. g ≡ file) (written n ∷ world)
    → Any (λ g. g ≡ file) world ⊎ (file ≡ written n)
listed_lem world n file (inl e) = inr (sym e)
listed_lem world n file (inr there) = inl there

writer_laws : WriterLaws disk (codes ".\\")
writer_laws = record {
  listed_after = λ world n codec rate s file small h.
      listed_lem world n file (subst (Any (λ g. g ≡ file)) (opens world n) h);
  kept_after = λ world n codec rate s file small h. inr h;
  read_after = λ world n m codec rate s small differs h. refl;
}

abbrev equipment : Devices disk
equipment = record {
  camera_opens = λ n. true;
  frame_size = λ w h. image 640 480;
  extract_double = λ s. some (some (pos 1));
  fourcc = λ a b c e. pos a;
  sockets = sockets;
  writer = false;
  reader = false;
  world = files;
}

abbrev tick : ℕ → Tick disk
tick key = record {
  start_clock = some (pos 1000);
  frame = image 640 480;
  end_clock = some (pos 1020);
  key = pos key;
  signalled = false;
}

-- A recording, a playback, and the end.
abbrev ticks : List (Tick disk)
ticks = tick b'r' ∷ tick b'x' ∷ tick b'p' ∷ tick b'x' ∷ tick b'q' ∷ []

abbrev images : List (List (FiducialX Number) × Number)
images =
    (shown, some (pos 1000))
    ∷ (shown, some (pos 1000))
    ∷ (shown, some (pos 1000))
    ∷ (shown, some (pos 1000))
    ∷ (shown, some (pos 1000))
    ∷ []

abbrev parameters : Parameters
parameters =
    (param_record_fps_scale, codes "1")
    ∷ (param_record_scale, codes "1")
    ∷ (param_show_input, codes "true")
    ∷ []

abbrev settings : Config
settings = record {
  frame_time = pos 33;
  threshold = pos 128;
  rotate_image = false;
  make_quadratic = false;
  show_input_window = true;
  show_contrast_window = false;
  print_data = false;
  arena_radius = pos 100;
}

abbrev window : CameraDisplay
window = record { track_rect_size = pos 40; screen_size = image 640 480; track_names = [] }

abbrev start : AppState Number Number lib disk
start = record {
  finder = new_finder lib (image 640 480);
  server = record { ipaddr = codes "127.0.0.1"; port = 3333; fseq = pos 0; sock = pos 7 };
  recorder = record {
    video_writer = false;
    video_reader = false;
    video_dir = codes ".\\";
    record_frame_rate = some (pos 30);
    frame_rate_ratio = some (pos 1);
    frame_progress = none;
    codec = pos b'P';
    orig_size = record { width = pos 640; height = pos 480 };
    record_size = record { width = pos 640; height = pos 480 };
    last_played_file_num = negsuc 0;
    last_played_frame = unset;
  };
  display = some window;
  record_mode = normal;
  display_mat = image 0 0;
  term_requested = false;
  world = files;
}

is_set : set_up lib disk equipment parameters ≡ ok (settings, start)
unfolding set_up int_param bool_param string_param double_param find read_config optional_display
    open_server to_unsigned_short new_recorder frame_time_of rate_of dir_of codec_of at new_display
    track_names_of split_names find_first_of
is_set = refl

shown-Seen : Seen lib disk (λ m. shown) settings ticks images
unfolding cut_frame gray_of
shown-Seen =
    round refl refl refl (
      round refl refl refl
        (round refl refl refl (round refl refl refl (last_round refl refl refl))))

abbrev arguments : List Text
arguments = codes "recfpsscale=1" ∷ codes "recordscale=1" ∷ codes "showinput=true" ∷ []

are_read : add_params [] arguments ≡ ok parameters
unfolding add_params add_param find_first_of substr put
are_read = refl

videos : HasVideos disk (codes ".\\") files
videos = (listed, signs, (7, (inl (refl, number_7), refl)))

room : HasRoom disk 5 (codes ".\\") files
room = (
  7,
  omega arith,
  (
    (λ k h. let e : k ≡ 7 = cc number_7 in omega arith),
    ((λ k h. cc), ((λ k h. let e : k ≡ 2 = cc number_2 in omega arith), tt)),
  ),
)

main_windowed_example :
    Yields
      (Sends lib osc disk narrow (λ m. shown) start.finder start.server images)
      (process_loop lib osc disk narrow (λ m. shown) (2 ^ 33 + 1) settings ticks start)
    × (main (process lib osc disk narrow (λ m. shown) (2 ^ 33 + 1) equipment ticks) arguments
        ≡ status 0)
main_windowed_example =
    main_windowed lib osc disk narrow (λ m. shown) refusals size_laws (codes ".\\") writer_laws
      (2 ^ 33 + 1) equipment arguments parameters images settings start window 640 480 (omega arith)
      are_read is_set refl (omega arith, omega arith, λ e. cc) refl (omega arith) (omega arith) refl
      videos room shown-Seen
      (
        (λ e. (refl, refl)),
        (
          (λ e. (refl, refl)),
          ((λ e. (refl, refl)), ((λ e. (refl, refl)), ((λ e. (refl, refl)), tt))),
        ),
      )
