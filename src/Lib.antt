-- ===== src/Lib.antt =====
-- xtrack follows markers (fiducials) in the image of a camera, sends what it finds to other programs as
-- TUIO messages over UDP, shows the image, and records and plays back video files.
--
-- The parts of the program, in the directory xtrack, and the files that model them:
--   parameters.h, parameters.cpp: the parameters and the access to them. Parameters (intParam is
--     int_param, and so on), Parameters/Names (the constants).
--   xtrack.cpp, _tmain: the command line. CommandLine.
--   fiducials.h, fiducials.cpp: the table of tracked fiducials. Fiducials (findFiducials is
--     find_fiducials, the destructor close_finder, the loops are transfer and mark_lost),
--     Fiducials/Tracked (what one raw fiducial does to its entry), Fiducials/Libfidtrack (the calls of libfidtrack).
--   tuio.h, tuio.cpp: the TUIO messages. Tuio (sendMessage is send_message, the destructor
--     close_server), Tuio/Wosclib (the calls of WOscLib and of the sockets). Tuio/Frame and
--     Tuio/Observed describe what is sent without the loops and the table.
--   record.h, record.cpp: the video files. Record (their names and numbers), Record/Recorder (the class
--     CameraRecorder and recording), Record/Player (playing back).
--   display.h, display.cpp: the window for the input image. Display, Display/Drawing.
--   xtrack.cpp, process: App (the state), App/Setup (what is in front of the loop), App/Loop (a round),
--     App/Keys (the keys), App/Process (the whole). There each image has its own pixels; in App/Sharing the
--     variables flipMat, grayScaleMat, thresholdMat and displayMat are headers that may share pixels.
--   xtrack-mac: the port, whose code is the same but for the sockets, the search for files and the size of
--     the frame, which are not there. Mac.
-- Text has the functions of the C++ library on strings and streams, and Prelude the numbers, the lists
-- and the exceptions. The other files below a part prove what the part does, and Tests runs the theorems.
--
-- In a round, `process` takes a frame from the camera, lets the finder update its table, hands the table to
-- the server, shows the image with the table drawn into it, hands the image to the recorder or takes one
-- from it, and lets a key change the mode. The state that lives through the loop is the record AppState.
-- What a round takes from outside (frame, clock, key, signal) is a Tick, so a run is a list of ticks, and a
-- run whose ticks are used up is `running`.
--
-- A computation that may throw is an Outcome: its result, an exception, or `running`. The use of a variable
-- that is not initialized, of a deleted object or of a null pointer is the exception `undefined`. Three
-- loops are on fuel: the one over the commas in the names of the objects, which gets one round more than the
-- text has bytes, since each round passes a comma; the one of `playbackFrame`, which has no bound in the
-- code either, and for which more than 2^33 is enough where a video file can be read; and the one over the
-- frames, which ends with the ticks.
--
-- An `int` is an integer, wrapped around where the code counts it up (next_int); sizes are natural numbers
-- modulo 2^64 where the code subtracts. `float` and `double` are types with operations that are parameters
-- (Floating). OpenCV, libfidtrack, WOscLib, the sockets, the clock, the file system and the conversion of
-- a text to a double are parameters too. OpenCvLaws, and SizeLaws of App/Windowed for the sizes of images,
-- have the documented behaviour of OpenCV that theorems rely on; WriterLaws there has what
-- opening a file for writing leaves of the directory of the video files, and HasVideos and HasRoom what a run
-- needs of it. App/Sharing writes out what OpenCV says of
-- cv::Mat: `=` copies the header, the functions with an output image overwrite its pixels or take new ones
-- (the parameter `reuses`, with SharingLaws), and drawing changes the pixels for every header. The camera
-- is taken to give each frame in pixels of its own.
--
-- Not modelled: the copies of libfidtrack and WOscLib in the repository, the text on the console except
-- that of printFiducials, the destructors as parts of `process` (they are close_finder and close_server), the
-- options of the windows, and the bytes of the socket address.
pub mod Prelude
pub mod Text
pub mod Parameters
pub mod CommandLine
pub mod Floating
pub mod Fiducials
pub mod Tuio
pub mod OpenCv
pub mod Record
pub mod Display
pub mod App
pub mod Mac
pub mod Tests
