-- ===== src/Tests/Tracking.antt =====
-- Tests of the table of tracked fiducials and of what is sent.
use xtrack.Prelude.{
  ◌≡◌, ◌⊎◌, ◌↔◌, refl, ℕ, ◌+◌, ◌*◌, true, false, none, some, List, [], ◌∷◌, length, get_elem?, Any,
  pos, negsuc, ◌&&◌, if◌then◌else◌, next_int, arith,
}
use xtrack.Text.{codes}
use xtrack.Floating.{◌⊕◌, ◌⊖◌, ◌≺◌}
use xtrack.Fiducials.{FiducialFinder, dmap_rows, find_fiducials}
use xtrack.Fiducials.Tracked.{TrackedFiducial, is_nan, pi, short_turn, fresh, update}
use xtrack.Fiducials.Libfidtrack.{FiducialX}
use xtrack.Fiducials.Transfer.{first_with}
use xtrack.Fiducials.Seen.{raws_of, seconds, find_fiducials_each, find_fiducials_tracked_iff}
use xtrack.Fiducials.Dmap.{dmap_rows_identity}
use xtrack.Fiducials.Run.{track_all, found_all, follow, track_all_entry}
use xtrack.Fiducials.Motion.{
  short_turn_shortest, NoneShorter, full_turn, update_three_times, sighted, xspeed_of, yspeed_of,
  aspeed_of, rate, length_of, elapsed,
}
use xtrack.Tuio.{TuioServer, send_message}
use xtrack.Tuio.Frame.{bundle_of, frame_messages, send_message_frame}
use xtrack.Tests.Stubs.{Number, numbers, asymmetric, image, osc, lib, transitive}

abbrev narrow : Number → Number
narrow v = v

abbrev raw_at : ℕ → ℕ → ℕ → ℕ → FiducialX Number
raw_at i x y a = record { id = pos i; x = some (pos x); y = some (pos y); angle = some (pos a) }

-- The entry 1 was seen in the second 3.
abbrev seen : TrackedFiducial Number Number
seen = record {
  is_tracked = true;
  timestamp = some (pos 3);
  x = some (pos 0);
  y = some (pos 0);
  a = some (pos 1);
  xspeed = none;
  yspeed = none;
  aspeed = none;
  xyacc = none;
  aacc = none;
}

abbrev lost : TrackedFiducial Number Number
lost = record seen { is_tracked = false; timestamp = some (pos 1) }

abbrev finder : FiducialFinder Number Number lib
finder = record {
  tracked_fiducials = lost ∷ seen ∷ lost ∷ lost ∷ [];
  raw_fiducials = [];
  segmenter = [];
  fidtracker = tt;
  fsize = image 4 4;
}

abbrev frame : List (FiducialX Number)
frame = raw_at 9 1 1 0 ∷ raw_at 1 2 3 1 ∷ raw_at 1 0 0 0 ∷ []

abbrev now : Number
now = some (pos 5000)

find_fiducials_each_example :
    get_elem? (find_fiducials lib narrow finder frame now).0.tracked_fiducials 1
    ≡ some (
        if numbers.eq seen.timestamp (seconds lib narrow now) && seen.is_tracked
        then seen
        else elim (first_with 1 (raws_of lib narrow finder frame)) [
          | none ↦ record seen { is_tracked = false }
          | some raw ↦ update narrow finder.fsize (seconds lib narrow now) raw seen
        ])
find_fiducials_each_example =
    find_fiducials_each lib narrow finder frame now 1 seen refl (omega arith) refl

find_fiducials_tracked_iff_example :
    (u : TrackedFiducial Number Number) × (get_elem?
        (find_fiducials lib narrow finder frame now).0.tracked_fiducials
        1
      ≡ some u)
    × ((u.is_tracked ≡ true) ↔ (
        Any (λ raw. raw.id ≡ pos 1) (raws_of lib narrow finder frame)
        ⊎ ((numbers.eq seen.timestamp (seconds lib narrow now) ≡ true) × (seen.is_tracked ≡ true))))
find_fiducials_tracked_iff_example =
    find_fiducials_tracked_iff lib narrow finder frame now 1 seen refl (omega arith) refl

one_way :
    (a : Number)
    → numbers.abs (a ⊕ full_turn) ≺ numbers.abs a
    → numbers.lt (numbers.abs (a ⊖ full_turn)) (numbers.abs a) ≡ false
unfolding pi
one_way none h = refl
one_way (some (pos n)) h = ground arith
one_way (some (negsuc n)) h = ground arith

short_turn_shortest_example :
    ((short_turn (some (pos 5)) ≡ some (pos 5))
      ⊎ ((short_turn (some (pos 5)) ≡ some (pos 5) ⊕ full_turn)
          ⊎ (short_turn (some (pos 5)) ≡ some (pos 5) ⊖ full_turn)))
    × NoneShorter asymmetric transitive one_way
        (short_turn (some (pos 5)))
        (some (pos 5))
        (some (pos 5) ⊕ full_turn)
        (some (pos 5) ⊖ full_turn)
short_turn_shortest_example = short_turn_shortest asymmetric transitive one_way (some (pos 5))

abbrev first : FiducialX Number
first = raw_at 1 4 4 1

abbrev second : FiducialX Number
second = raw_at 1 8 12 2

abbrev third : FiducialX Number
third = raw_at 1 16 12 2

abbrev at_second : ℕ → Number
at_second n = some (pos n)

update_three_times_example :
    update narrow (image 4 4) (at_second 3) third (
      update narrow
        (image 4 4)
        (at_second 2)
        second
        (update narrow (image 4 4) (at_second 1) first fresh))
    ≡ sighted narrow
        (image 4 4)
        (at_second 3)
        third
        (xspeed_of narrow (image 4 4) (at_second 2) second (at_second 3) third)
        (yspeed_of narrow (image 4 4) (at_second 2) second (at_second 3) third)
        (aspeed_of narrow (image 4 4) (at_second 2) second (at_second 3) third)
        (rate narrow
          (image 4 4)
          (length_of narrow
            (image 4 4)
            (xspeed_of narrow (image 4 4) (at_second 1) first (at_second 2) second)
            (yspeed_of narrow (image 4 4) (at_second 1) first (at_second 2) second))
          (length_of narrow
            (image 4 4)
            (xspeed_of narrow (image 4 4) (at_second 2) second (at_second 3) third)
            (yspeed_of narrow (image 4 4) (at_second 2) second (at_second 3) third))
          (elapsed narrow (image 4 4) (at_second 2) (at_second 3)))
        (rate narrow
          (image 4 4)
          (aspeed_of narrow (image 4 4) (at_second 1) first (at_second 2) second)
          (aspeed_of narrow (image 4 4) (at_second 2) second (at_second 3) third)
          (elapsed narrow (image 4 4) (at_second 2) (at_second 3)))
unfolding is_nan short_turn pi
update_three_times_example =
    update_three_times narrow (image 4 4) refl (at_second 1) (at_second 2) (at_second 3) first
      second third (refl, refl, refl) (refl, refl, refl) refl refl refl

abbrev server : TuioServer
server = record { ipaddr = codes "127.0.0.1"; port = 3333; fseq = pos 4; sock = pos 7 }

send_message_frame_example : send_message osc server (seen ∷ lost ∷ []) ≡ (
  record server { fseq = next_int server.fseq },
  record {
    sock = server.sock;
    address = server.ipaddr;
    port = server.port;
    payload = osc.get_buffer (bundle_of osc (frame_messages server.fseq (seen ∷ lost ∷ [])));
  },
)
send_message_frame_example = send_message_frame osc server (seen ∷ lost ∷ [])

dmap_rows_identity_example :
    (length (dmap_rows 3 0 2) ≡ 2 * 3)
    × (get_elem? (dmap_rows 3 0 2) (1 * 3 + 2) ≡ some (record { x = pos 2; y = pos 1 }))
dmap_rows_identity_example =
    dmap_rows_identity 3 2 2 1 (omega arith) (omega arith) (omega arith) (omega arith)

-- The fiducial 1 is found, then lost, then found again.
abbrev frames : List (List (FiducialX Number) × Number)
frames = (frame, some (pos 5000)) ∷ ([], some (pos 6000)) ∷ (frame, some (pos 7000)) ∷ []

track_all_entry_example :
    get_elem? (track_all lib narrow finder frames).0.tracked_fiducials 1
    ≡ some (
        follow lib narrow finder.fsize 1
          (found_all lib narrow finder.segmenter finder.fidtracker frames)
          seen)
track_all_entry_example = track_all_entry lib narrow finder frames 1 seen (omega arith) refl (
  refl,
  refl,
  (refl, refl, (refl, refl, tt, tt), (refl, refl, tt, tt)),
  (refl, refl, (refl, refl, tt, tt), (refl, refl, tt, tt)),
)
