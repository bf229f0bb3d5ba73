-- ===== src/Tuio/Frame.antt =====
-- The bundle of one frame against a description of it as a list of messages.
use mathlib.Core.List.{foldl}
use xtrack.Prelude.{
  ℕ, ◌+◌, ◌≡◌, refl, List, [], ◌∷◌, ◌++◌, map, if◌then◌else◌, take, ℤ, pos, next_int, arith,
}
use xtrack.Text.{Text, codes}
use xtrack.Fiducials.{max_fiducials}
use xtrack.Fiducials.Tracked.{TrackedFiducial}
use xtrack.Tuio.Wosclib.{Wosc}
use xtrack.Tuio.{osc_path, TuioServer, add_alive, set_message, add_sets, send_message}

pub data Argument (F : Type 0) : Type 0 where
  text : Text → Argument F
  int : ℤ → Argument F
  float : F → Argument F

module _ {F : Type 0} (osc : Wosc F) where
  open osc use {Message, Bundle, new_message, add_text, add_int, add_float, new_bundle, add_message}

  abbrev add_argument : Message → Argument F → Message
  add_argument msg (text s) = add_text msg s
  add_argument msg (int n) = add_int msg n
  add_argument msg (float v) = add_float msg v

  abbrev message_of : List (Argument F) → Message
  message_of = foldl add_argument (new_message osc_path)

  abbrev add_listed : Bundle → List (Argument F) → Bundle
  add_listed bundle arguments = add_message bundle (message_of arguments)

  abbrev pub bundle_of : List (List (Argument F)) → Bundle
  bundle_of = foldl add_listed new_bundle

  foldl_last :
      (ms : List (List (Argument F))) (m : List (Argument F)) (bundle : Bundle)
      → foldl add_listed bundle (ms ++ m ∷ []) ≡ add_listed (foldl add_listed bundle ms) m
  foldl_last [] m bundle = refl
  foldl_last (x ∷ ms) m bundle = foldl_last ms m (add_listed bundle x)

module _ {F D : Type 0} where
  -- The tracked fiducials with their ids, in the order of the table, from the id `i` on.
  abbrev pub tracked_from : ℕ → List (TrackedFiducial F D) → List (ℕ × TrackedFiducial F D)
  tracked_from i [] = []
  tracked_from i (fid ∷ fids) =
      if fid.is_tracked then (i, fid) ∷ tracked_from (i + 1) fids else tracked_from (i + 1) fids

  abbrev set_arguments : ℕ × TrackedFiducial F D → List (Argument F)
  set_arguments (i, fid) =
      text (codes "set")
      ∷ int (pos i)
      ∷ int (pos i)
      ∷ float fid.x
      ∷ float fid.y
      ∷ float fid.a
      ∷ float fid.xspeed
      ∷ float fid.yspeed
      ∷ float fid.aspeed
      ∷ float fid.xyacc
      ∷ float fid.aacc
      ∷ []

  abbrev alive_id : ℕ × TrackedFiducial F D → Argument F
  alive_id entry = int (pos entry.0)

  -- The messages of a frame: which ids are alive, a set message for each of them, and the number of
  -- the frame.
  abbrev pub messages_of : ℤ → List (ℕ × TrackedFiducial F D) → List (List (Argument F))
  messages_of fseq tracked =
      (text (codes "alive") ∷ map alive_id tracked)
      ∷ (map set_arguments tracked ++ ((text (codes "fseq") ∷ int fseq ∷ []) ∷ []))

  abbrev pub frame_messages : ℤ → List (TrackedFiducial F D) → List (List (Argument F))
  frame_messages fseq fiducials = messages_of fseq (tracked_from 0 (take max_fiducials fiducials))

  module _ (osc : Wosc F) where
    open osc use {Message, Bundle, add_int, get_buffer}

    add_alive-foldl :
        (i : ℕ) (fids : List (TrackedFiducial F D)) (msg : Message)
        → add_alive osc i fids msg
          ≡ foldl (add_argument osc) msg (map alive_id (tracked_from i fids))
    unfolding add_alive
    add_alive-foldl i [] msg = refl
    add_alive-foldl i (fid ∷ fids) msg = ground (
      arith,
      add_alive-foldl (i + 1) fids (add_int msg (pos i)),
      add_alive-foldl (i + 1) fids msg,
    )

    add_sets-foldl :
        (i : ℕ) (fids : List (TrackedFiducial F D)) (bundle : Bundle)
        → add_sets osc i fids bundle
          ≡ foldl (add_listed osc) bundle (map set_arguments (tracked_from i fids))
    unfolding add_sets set_message
    add_sets-foldl i [] bundle = refl
    add_sets-foldl i (fid ∷ fids) bundle = ground (
      arith,
      add_sets-foldl (i + 1) fids (add_listed osc bundle (set_arguments (i, fid))),
      add_sets-foldl (i + 1) fids bundle,
    )

    -- What is sent for a frame are the bytes of the bundle of the frame's messages, to the server's
    -- address and port; the server's frame number goes up by one and nothing else of it changes.
    pub send_message_frame :
        (server : TuioServer) (fiducials : List (TrackedFiducial F D))
        → send_message osc server fiducials ≡ (
          record server { fseq = next_int server.fseq },
          record {
            sock = server.sock;
            address = server.ipaddr;
            port = server.port;
            payload = get_buffer (bundle_of osc (frame_messages server.fseq fiducials));
          },
        )
    unfolding send_message
    send_message_frame server fiducials = rw (add_alive-foldl, add_sets-foldl, foldl_last)
