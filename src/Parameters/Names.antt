-- ===== src/Parameters/Names.antt =====
-- xtrack/parameters.h: the keys of the parameters and their default values. The two factors that are
-- doubles are given as tenths.
use xtrack.Prelude.{Bool, false, ℕ, ℤ, pos}
use xtrack.Text.{Text, codes}

abbrev pub default_show_contrast : Bool
default_show_contrast = false

abbrev pub param_show_contrast : Text
param_show_contrast = codes "showcontr"

abbrev pub default_show_input : Bool
default_show_input = false

abbrev pub param_show_input : Text
param_show_input = codes "showinput"

abbrev pub default_print : Bool
default_print = false

abbrev pub param_print : Text
param_print = codes "print"

abbrev pub default_camera : ℤ
default_camera = pos 0

abbrev pub param_camera : Text
param_camera = codes "camera"

abbrev pub default_frame_time : ℤ
default_frame_time = pos 33

abbrev pub param_frame_time : Text
param_frame_time = codes "ftime"

abbrev pub default_frame_width : ℤ
default_frame_width = pos 320

abbrev pub param_frame_width : Text
param_frame_width = codes "fwidth"

abbrev pub default_frame_height : ℤ
default_frame_height = pos 240

abbrev pub param_frame_height : Text
param_frame_height = codes "fheight"

abbrev pub default_rotate : Bool
default_rotate = false

abbrev pub param_rotate : Text
param_rotate = codes "rotate"

abbrev pub default_quadratic : Bool
default_quadratic = false

abbrev pub param_quadratic : Text
param_quadratic = codes "quadratic"

abbrev pub default_threshold : ℤ
default_threshold = pos 128

abbrev pub param_threshold : Text
param_threshold = codes "threshold"

abbrev pub default_address : Text
default_address = codes "127.0.0.1"

abbrev pub param_address : Text
param_address = codes "address"

abbrev pub default_port : ℤ
default_port = pos 3333

abbrev pub param_port : Text
param_port = codes "port"

abbrev pub default_track_rect_size : ℤ
default_track_rect_size = pos 40

abbrev pub param_track_rect_size : Text
param_track_rect_size = codes "trackrectsize"

abbrev pub default_track_names : Text
default_track_names = codes ""

abbrev pub param_track_names : Text
param_track_names = codes "tracknames"

abbrev pub default_record_dir : Text
default_record_dir = codes ".\\"

abbrev pub param_record_dir : Text
param_record_dir = codes "recorddir"

abbrev pub default_codec : Text
default_codec = codes "PIM1"

abbrev pub param_codec : Text
param_codec = codes "codec"

abbrev pub default_record_scale_tenths : ℕ
default_record_scale_tenths = 4

abbrev pub param_record_scale : Text
param_record_scale = codes "recordscale"

abbrev pub default_record_fps_scale_tenths : ℕ
default_record_fps_scale_tenths = 6

abbrev pub param_record_fps_scale : Text
param_record_fps_scale = codes "recfpsscale"

abbrev pub default_arena_radius : ℤ
default_arena_radius = pos 100

abbrev pub param_arena_radius : Text
param_arena_radius = codes "arenarad"
