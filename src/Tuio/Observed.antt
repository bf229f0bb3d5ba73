-- ===== src/Tuio/Observed.antt =====
-- What is sent over a run, with one entry for each id that knows nothing of the others, in place of the table.
use native.Mathlib.Nat.{zero-add}
use xtrack.Prelude.{
  ◌≡◌, ◌∙◌, refl, sym, ap, ℕ, zero, suc, ◌+◌, ◌<◌, true, false, Bool, Option, none, some, List, [],
  ◌∷◌, if◌then◌else◌, get_elem?, length, take, next_int, List, arith,
}
use xtrack.Floating.{Floating}
use xtrack.Fiducials.{max_fiducials, FiducialFinder, find_fiducials}
use xtrack.Fiducials.Tracked.{Size, TrackedFiducial}
use xtrack.Fiducials.Libfidtrack.{FidTrack, FiducialX}
use xtrack.Fiducials.Transfer.{first_with, update_stamp}
use xtrack.Fiducials.Seen.{seconds, raws_of, find_fiducials_entry, find_fiducials-length}
use xtrack.Fiducials.Run.{Apart, meet, meet_lem, meet-Apart, found_all, track_all}
use xtrack.Tuio.{TuioServer, Datagram, send_message, send_all}
use xtrack.Tuio.Wosclib.{Wosc}
use xtrack.Tuio.Frame.{tracked_from, messages_of, bundle_of, send_message_frame}

abbrev pub is_found : {A : Type 0} → Option A → Bool
is_found none = false
is_found (some a) = true

take-length {ℓ} : {A : Type ℓ} (xs : List A) → take (length xs) xs ≡ xs
take-length [] = refl
take-length (x ∷ xs) = ap (λ ys. x ∷ ys) (take-length xs)

first_entry {ℓ} :
    {A : Type ℓ} (a : A) (entries : ℕ → A) (i : ℕ) → some a ≡ some (entries (i + 0)) → a ≡ entries i
first_entry a entries i h = let e : i + 0 ≡ i = omega arith in cc

cons_eq {ℓ} : {A : Type ℓ} {x y : A} {xs ys : List A} → x ≡ y → xs ≡ ys → (x ∷ xs) ≡ (y ∷ ys)
cons_eq e e' = λ i. e i ∷ e' i

module _ {F D : Type 0} where
  -- The ids from `i` on, `count` of them, that are among what is found, each with its entry.
  abbrev pub sighted :
      List (FiducialX F) → (ℕ → TrackedFiducial F D) → ℕ → ℕ → List (ℕ × TrackedFiducial F D)
  sighted raws entries i zero = []
  sighted raws entries i (suc count) =
      if is_found (first_with i raws)
      then (i, entries i) ∷ sighted raws entries (i + 1) count
      else sighted raws entries (i + 1) count

  tracked_from-sighted :
      (raws : List (FiducialX F)) (entries : ℕ → TrackedFiducial F D)
      (table : List (TrackedFiducial F D)) (i : ℕ)
      → ((j : ℕ) → (entries j).is_tracked ≡ is_found (first_with j raws))
      → ((j : ℕ) → j < length table → get_elem? table j ≡ some (entries (i + j)))
      → tracked_from i table ≡ sighted raws entries i (length table)
  tracked_from-sighted raws entries [] i same holds = refl
  tracked_from-sighted raws entries (t ∷ table) i same holds =
      let e : t ≡ entries i = first_entry t entries i (holds 0 (omega arith)) in
      let others = tracked_from-sighted raws entries table (i + 1) same (λ j h.
        let next : i + suc j ≡ i + 1 + j = omega arith in
        holds (suc j) (omega arith) ∙ ap (λ n. some (entries n)) next) in
      let tracked : t.is_tracked ≡ is_found (first_with i raws) =
        ap (λ x. x.is_tracked) e ∙ same i in
      cc

module _ {F D : Type 0} (lib : FidTrack F) where
  -- The finder's table has these entries.
  abbrev pub Holds : FiducialFinder F D lib → (ℕ → TrackedFiducial F D) → Type 0
  Holds finder entries =
      (length finder.tracked_fiducials ≡ max_fiducials)
      × ((i : ℕ) → i < max_fiducials → get_elem? finder.tracked_fiducials i ≡ some (entries i))

module _ {F D : Type 0} ⦃f : Floating F⦄ ⦃d : Floating D⦄ (lib : FidTrack F) (osc : Wosc F)
    (narrow : D → F) where
  abbrev pub datagram_of : TuioServer → List (ℕ × TrackedFiducial F D) → Datagram
  datagram_of server tracked = record {
    sock = server.sock;
    address = server.ipaddr;
    port = server.port;
    payload = osc.get_buffer (bundle_of osc (messages_of server.fseq tracked));
  }

  -- The datagrams of a server for what libfidtrack finds in a run: each id has an entry of its own, which the
  -- first fiducial with this id updates.
  abbrev pub observed :
      TuioServer → Size → (ℕ → TrackedFiducial F D) → List (List (FiducialX F) × D) → List Datagram
  observed server fsize entries [] = []
  observed server fsize entries ((raws, sec) ∷ found) =
      let next : ℕ → TrackedFiducial F D =
        λ i. meet lib narrow fsize sec (first_with i raws) (entries i) in
      datagram_of server (sighted raws next 0 max_fiducials)
      ∷ observed (record server { fseq = next_int server.fseq }) fsize next found

  meet-is_tracked :
      (fsize : Size) (sec : D) (o : Option (FiducialX F)) (t : TrackedFiducial F D)
      → d.eq sec sec ≡ true
      → (meet lib narrow fsize sec o t).is_tracked ≡ is_found o
  meet-is_tracked fsize sec none t ticks = refl
  meet-is_tracked fsize sec (some raw) t ticks = (update_stamp narrow fsize sec ticks raw t).0

  sent :
      (server : TuioServer) (table : List (TrackedFiducial F D)) (raws : List (FiducialX F))
      (entries : ℕ → TrackedFiducial F D)
      → ((i : ℕ) → (entries i).is_tracked ≡ is_found (first_with i raws))
      → length table ≡ max_fiducials
      → ((i : ℕ) → i < max_fiducials → get_elem? table i ≡ some (entries i))
      → (send_message osc server table).1
        ≡ datagram_of server (sighted raws entries 0 max_fiducials)
  sent server table raws entries same long holds =
      ap (λ x. x.1) (send_message_frame osc server table)
      ∙ ap (datagram_of server) (
          ap (tracked_from 0) (ap (λ n. take n table) (sym long) ∙ take-length table)
          ∙ tracked_from-sighted raws entries table 0 same
              (λ j h. holds j (omega (arith, long)) ∙ ap (λ n. some (entries n)) (sym (zero-add j)))
          ∙ ap (sighted raws entries 0) long)

  held_next :
      (finder : FiducialFinder F D lib) (image : lib.Image) (clock : D)
      (frames : List (lib.Image × D)) (entries : ℕ → TrackedFiducial F D)
      → Holds lib finder entries
      → ((i : ℕ) → Apart lib narrow (entries i).timestamp ((image, clock) ∷ frames))
      → Holds lib (find_fiducials lib narrow finder image clock).0 (λ i.
        meet lib narrow finder.fsize
          (seconds lib narrow clock)
          (first_with i (raws_of lib narrow finder image))
          (entries i))
  held_next finder image clock frames entries (long, holds) apart = (
    find_fiducials-length lib narrow finder image clock ∙ long,
    λ i known.
        find_fiducials_entry lib narrow finder image clock i (entries i) (apart i).0 known
          (holds i known) (apart i).1
        ∙ ap some (
            meet_lem lib narrow finder.fsize (seconds lib narrow clock)
              (first_with i (raws_of lib narrow finder image)) (entries i)),
  )

  pub send_all-observed :
      (finder : FiducialFinder F D lib) (server : TuioServer) (frames : List (lib.Image × D))
      (entries : ℕ → TrackedFiducial F D)
      → Holds lib finder entries
      → ((i : ℕ) → Apart lib narrow (entries i).timestamp frames)
      → (send_all osc server (track_all lib narrow finder frames).1).1
        ≡ observed server finder.fsize entries
            (found_all lib narrow finder.segmenter finder.fidtracker frames)
  unfolding send_all find_fiducials
  send_all-observed finder server [] entries holds apart = refl
  send_all-observed finder server ((image, clock) ∷ frames) entries holds apart =
      let raws = raws_of lib narrow finder image in
      let sec = seconds lib narrow clock in
      let next : ℕ → TrackedFiducial F D =
        λ i. meet lib narrow finder.fsize sec (first_with i raws) (entries i) in
      let later = (find_fiducials lib narrow finder image clock).0 in
      let kept : Holds lib later next = held_next finder image clock frames entries holds apart in
      cons_eq
        (sent server later.tracked_fiducials raws next
          (λ i. meet-is_tracked finder.fsize sec (first_with i raws) (entries i) (apart 0).0) kept.0
          kept.1)
        (ap (λ x. (send_all osc x.0 (track_all lib narrow later frames).1).1)
            (send_message_frame osc server later.tracked_fiducials)
          ∙ send_all-observed later (record server { fseq = next_int server.fseq }) frames next kept
              (λ i.
                meet-Apart lib narrow finder.fsize sec (first_with i raws) (entries i) frames
                  (apart i).0 (apart i).2 (apart i).3))
