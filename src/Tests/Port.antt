-- ===== src/Tests/Port.antt =====
-- Tests of the port.
use xtrack.Prelude.{◌≡◌, ◌≢◌, refl, true, false, none, some, List, [], ◌∷◌, pos, raise, undefined}
use xtrack.Text.{codes}
use xtrack.Record.Recorder.{unset}
use xtrack.Record.Player.{Found}
use xtrack.App.{Tick}
use xtrack.Parameters.{find, int_param}
use xtrack.Mac.Recorder.{port, PortRecorder}
use xtrack.Mac.Loop.{Devices, PortState, process, process_loop}
use xtrack.Mac.Rounds.{strip, process_loop_port}
use xtrack.App.{Config}
use xtrack.App.Loop
use xtrack.Fiducials.{new_finder}
use xtrack.Record.Recorder.{normal}
use xtrack.Mac.Safety.{port_defined}
use xtrack.Tests.Stubs.{Number, numbers, image, cv, cv_laws, osc, lib}

abbrev narrow : Number → Number
narrow v = v

abbrev devices : Devices cv
devices = record {
  camera_opens = λ n. true;
  extract_double = λ s. some (some (pos 1));
  fourcc = λ a b c e. pos a;
  held_socket = pos 0;
  writer = false;
  reader = false;
  world = [];
}

abbrev ticks : List (Tick (port cv))
ticks =
    record {
      start_clock = some (pos 1000);
      frame = image 320 240;
      end_clock = some (pos 1020);
      key = pos b'q';
      signalled = false;
    }
    ∷ []

port_defined_example : process lib osc cv narrow (λ m. []) 3 devices ticks [] ≢ raise undefined
unfolding int_param find
port_defined_example =
    port_defined lib osc cv narrow (λ m. []) cv_laws 3 devices ticks [] 320 240 refl refl

abbrev recorder : PortRecorder cv
recorder = record {
  video_writer = false;
  video_reader = false;
  video_dir = codes "videos\\";
  record_frame_rate = some (pos 25);
  frame_rate_ratio = some (pos 1);
  frame_progress = some (some (pos 0));
  codec = pos 1;
  orig_size = record { width = pos 640; height = pos 480 };
  record_size = record { width = pos 640; height = pos 480 };
  last_played_file_num = pos 5;
  last_played_frame = unset;
}

abbrev at_end : Found (port cv)
at_end = record { frame = image 0 0; reader = true; number = pos 1 }

abbrev config : Config
config = record {
  frame_time = pos 40;
  threshold = pos 100;
  rotate_image = false;
  make_quadratic = true;
  show_input_window = false;
  show_contrast_window = true;
  print_data = true;
  arena_radius = pos 200;
}

abbrev tracking : PortState lib cv
tracking = record {
  finder = new_finder lib (image 2 2);
  server = record { ipaddr = codes "127.0.0.1"; port = 3333; fseq = pos 0; sock = pos 0 };
  recorder = recorder;
  display = none;
  record_mode = normal;
  display_mat = image 0 0;
  term_requested = false;
  world = [];
}

process_loop_port_example :
    strip (Loop.process_loop lib osc (port cv) narrow (λ m. []) 3 config ticks tracking)
    ≡ process_loop lib osc cv narrow (λ m. []) 3 config ticks tracking
process_loop_port_example = process_loop_port lib osc cv narrow (λ m. []) 3 config ticks tracking
