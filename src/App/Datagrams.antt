-- ===== src/App/Datagrams.antt =====
-- What a whole run sends, and to whom.
use mathlib.Core.Option
use native.Mathlib.Nat.{zero-add}
use xtrack.Prelude.{
  Bool, none, true, false, arith, ◌≡◌, ◌∙◌, refl, ap, ℕ, suc, ◌<◌, ◌≤◌, ◌^◌, false, not, ◌||◌,
  if◌then◌else◌, List, [], ◌∷◌, length, get_elem?, ℤ, pos, next_int, ok, raise, thrown, ◌>>=◌,
  Gives, given, raised, Gives-bind, Gives-then, Gives-if, Gives-result,
}
use xtrack.Parameters.{Parameters, int_param, string_param}
use xtrack.Parameters.Names.{
  param_camera, default_camera, param_frame_width, default_frame_width, param_frame_height,
  default_frame_height, param_address, default_address, param_port, default_port,
}
use xtrack.Floating.{Floating}
use xtrack.OpenCv.{OpenCv}
use xtrack.Fiducials.{FiducialFinder, find_fiducials, new_finder}
use xtrack.Fiducials.Tracked.{TrackedFiducial}
use xtrack.Fiducials.Run.{track_all}
use xtrack.Fiducials.Libfidtrack.{FidTrack}
use xtrack.Tuio.{
  TuioServer, closed, cleaned_up, to_unsigned_short, open_server, close_server, is_zero, is_invalid,
  send_message, send_all,
}
use xtrack.Tuio.Wosclib.{Wosc, Sockets}
use xtrack.Tuio.Sequence.{numbered, send_all_numbers}
use xtrack.Display.{new_display}
use xtrack.Fiducials.Tracked.{Size}
use xtrack.Record.Recorder.{normal, new_recorder}
use xtrack.App.{Config, AppState, Tick, Output}
use xtrack.App.Setup.{Devices, read_config, optional_display, set_up}
use xtrack.App.Loop.{process_loop}
use xtrack.App.Outputs.{datagrams_of}
use xtrack.App.Sending.{Seen, no_frame, last_round, round, process_loop_sends}

-- A server as it is opened, with the address and the port of the parameters.
abbrev pub IsOpened : Sockets → Parameters → TuioServer → Type 0
IsOpened net ps server =
    (server.sock ≡ net.socket)
    × (server.fseq ≡ pos 0)
    × (server.ipaddr ≡ string_param ps param_address default_address)
    × ((n : ℤ) × (int_param ps param_port default_port ≡ ok n)
        × (server.port ≡ to_unsigned_short n))

open_server-IsOpened :
    (net : Sockets) (ps : Parameters) → Gives (IsOpened net ps) (open_server net ps)
unfolding open_server
open_server-IsOpened net ps =
    Gives-then (Gives-result (int_param ps param_port default_port)) (λ port e.
      Gives-if (not (is_zero net.startup) || is_invalid net.socket) (λ _. raised)
        (given (refl, refl, refl, (port, e, refl))))

module _ {F D : Type 0} ⦃f : Floating F⦄ ⦃d : Floating D⦄ (lib : FidTrack F) (cv : OpenCv D) where
  optional_display-Gives :
      (shown : Bool) (ps : Parameters) (size : Size)
      → Gives (λ display. shown ≡ false → display ≡ none) (optional_display shown ps size)
  unfolding optional_display
  optional_display-Gives false ps size = given (λ e. refl)
  optional_display-Gives true ps size =
      Gives-bind (new_display ps size) (λ display. given (λ e. cc))

  -- The state in front of the first round.
  abbrev pub Starts : Devices cv → Parameters → Config × AppState F D lib cv → Type 0
  Starts devices ps start =
      (start.1.term_requested ≡ false)
      × (start.1.record_mode ≡ normal)
      × (start.0.show_input_window ≡ false → start.1.display ≡ none)
      × (start.1.display_mat ≡ cv.empty_mat)
      × IsOpened devices.sockets ps start.1.server
      × (start.1.finder ≡ new_finder lib start.1.finder.fsize)

  pub set_up-Starts :
      (devices : Devices cv) (ps : Parameters)
      → Gives (Starts devices ps) (set_up lib cv devices ps)
  unfolding set_up new_finder
  set_up-Starts devices ps = Gives-bind (int_param ps param_camera default_camera) (λ camera.
      Gives-bind (if devices.camera_opens camera then ok camera else raise (thrown 1)) (λ _.
        Gives-bind (int_param ps param_frame_width default_frame_width) (λ width.
          Gives-bind (int_param ps param_frame_height default_frame_height) (λ height.
            Gives-bind (read_config ps) (λ config.
              Gives-then
                (optional_display-Gives config.show_input_window ps
                  (devices.frame_size width height))
                (λ display hidden. Gives-then (open_server-IsOpened devices.sockets ps) (λ server p.
                  Gives-bind
                    (new_recorder cv devices.extract_double devices.fourcc devices.writer
                      devices.reader ps _)
                    (λ r. given (refl, refl, hidden, refl, p, refl)))))))))

module _ {F D : Type 0} (lib : FidTrack F) (cv : OpenCv D) (data_of : cv.Mat → lib.Image) where
  Seen-length :
      (config : Config) {ticks : List (Tick cv)} {frames : List (lib.Image × D)}
      → Seen lib cv data_of config ticks frames
      → length frames ≤ length ticks
  Seen-length config (no_frame e) = omega arith
  Seen-length config (last_round e i q) = omega arith
  Seen-length config (round e i q seen) = omega (arith, Seen-length config seen)

module _ {F D : Type 0} ⦃f : Floating F⦄ ⦃d : Floating D⦄ (lib : FidTrack F) (narrow : D → F) where
  length-track_all :
      (finder : FiducialFinder F D lib) (frames : List (lib.Image × D))
      → length (track_all lib narrow finder frames).1 ≡ length frames
  length-track_all finder [] = refl
  length-track_all finder ((image, clock) ∷ frames) =
      ap suc (length-track_all (find_fiducials lib narrow finder image clock).0 frames)

module _ {F D : Type 0} (osc : Wosc F) where
  sock-send_all :
      (server : TuioServer) (tables : List (List (TrackedFiducial F D)))
      → (send_all osc server tables).0.sock ≡ server.sock
  unfolding send_all send_message
  sock-send_all server [] = refl
  sock-send_all server (table ∷ tables) =
      sock-send_all (record server { fseq = next_int server.fseq }) tables

close_server_lem :
    (server : TuioServer) (n : ℕ)
    → server.sock ≡ pos n
    → close_server server ≡ closed (pos n) ∷ cleaned_up ∷ []
unfolding close_server
close_server_lem server n e = rw e (ground arith)

module _ {F D : Type 0} ⦃f : Floating F⦄ ⦃d : Floating D⦄ (lib : FidTrack F) (osc : Wosc F)
    (cv : OpenCv D) (narrow : D → F) (data_of : cv.Mat → lib.Image) where
  abbrev pub IsSent :
      Devices cv
      → List (Tick cv)
      → Parameters
      → ℕ
      → (Config × AppState F D lib cv) × (AppState F D lib cv × List (Output cv))
      → Type 0
  IsSent devices ticks ps socket (start, res) =
      IsOpened devices.sockets ps start.1.server
      × ((frames : List (lib.Image × D)) × Seen lib cv data_of start.0 ticks frames
          × ((k : ℕ)
              → get_elem? (datagrams_of res.1) k
                ≡ Option.map (numbered osc start.1.server (pos k))
                    (get_elem? (track_all lib narrow start.1.finder frames).1 k)))
      × (close_server res.0.server ≡ closed (pos socket) ∷ cleaned_up ∷ [])

  -- A run from the parameters on, of less than 2^31 frames and with a socket whose number is not negative:
  -- if what is in front of the loop and the loop give a result, the server was opened with the address and
  -- the port of the parameters, the datagram `k` that was sent goes to it, carries the frame number `k`
  -- and the table that the finder made of the k-th image, there is one for each round and none more, and in
  -- the end the destructor closes that socket.
  pub process_datagrams :
      (fuel : ℕ) (devices : Devices cv) (ticks : List (Tick cv)) (ps : Parameters) (socket : ℕ)
      → devices.sockets.socket ≡ pos socket
      → length ticks < 2 ^ 31
      → Gives (IsSent devices ticks ps socket) (do
        start ← set_up lib cv devices ps
        res ← process_loop lib osc cv narrow data_of fuel start.0 ticks start.1
        ok (start, res))
  process_datagrams fuel devices ticks ps socket valid fits =
      Gives-then (set_up-Starts lib cv devices ps) (λ start p.
        Gives-then (process_loop_sends lib osc cv narrow data_of fuel start.0 ticks start.1 p.0)
          (λ res q.
            let tables = (track_all lib narrow start.1.finder q.0).1 in
            let few : length tables < 2 ^ 31 = omega (
              arith,
              length-track_all lib narrow start.1.finder q.0,
              Seen-length lib cv data_of start.0 q.1,
            ) in
            given (
              p.4,
              (
                q.0,
                q.1,
                λ k.
                    ap (λ ds. get_elem? ds k) q.2.2
                    ∙ send_all_numbers osc start.1.server tables 0 k p.4.1 (omega (arith, few))
                    ∙ ap
                        (λ n. Option.map (numbered osc start.1.server (pos n)) (get_elem? tables k))
                        (zero-add k),
              ),
              close_server_lem res.0.server socket (
                  ap (λ x. x.sock) q.2.1 ∙ sock-send_all osc start.1.server tables ∙ p.4.0 ∙ valid),
            )))
