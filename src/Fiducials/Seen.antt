-- ===== src/Fiducials/Seen.antt =====
-- What one frame does to the table of tracked fiducials.
use xtrack.Prelude.{
  Bool, ℕ, ◌<◌, ◌≡◌, ◌∙◌, refl, ap, ◌↔◌, ◌⊎◌, inl, inr, ◌&&◌, if◌then◌else◌, true, false, Option,
  none, some, List, [], ◌∷◌, length, length-map, get_elem?, Any, Bool-cases, pos, arith,
}
use xtrack.Floating.{Floating, ◌⊘◌}
use xtrack.Fiducials.Libfidtrack.{FiducialX, FidTrack}
use xtrack.Fiducials.Tracked.{TrackedFiducial, update}
use xtrack.Fiducials.{max_fiducials, touch, mark, mark_lost, FiducialFinder, find_fiducials}
use xtrack.Fiducials.Transfer.{
  has_id, has_id_iff, first_with, apply_first, update_stamp, get_elem?-transfer, length-transfer,
  get_elem?-map,
}

first_with-cases :
    {F : Type 0} (i : ℕ) (raws : List (FiducialX F))
    → ((raw : FiducialX F) × (first_with i raws ≡ some raw) × Any (λ r. r.id ≡ pos i) raws)
      ⊎ ((first_with i raws ≡ none) × (¬ Any (λ r. r.id ≡ pos i) raws))
unfolding first_with
first_with-cases i [] = inr (refl, λ x. x)
first_with-cases i (raw ∷ raws) = elim (Bool-cases (has_id i raw.id)) [
  | inl same ↦ inl (raw, rw same, inl ((has_id_iff i raw.id).0 same))
  | inr other ↦ elim (first_with-cases i raws) [
    | inl (r, e, found) ↦ inl (r, rw other e, inr found)
    | inr (e, lost) ↦ inr (
      rw other e,
      λ x. elim x [ inl now ↦ cc ((has_id_iff i raw.id).1 now) | inr later ↦ lost later ],
    )
  ]
]

not_tracked :
    {F D : Type 0} (t : TrackedFiducial F D)
    → t.is_tracked ≡ false
    → t ≡ record t { is_tracked = false }
not_tracked t e = λ i. record t { is_tracked = e i }

module _ {F D : Type 0} ⦃f : Floating F⦄ ⦃d : Floating D⦄ (lib : FidTrack F) (narrow : D → F) where
  open lib use {Image, columns, rows, step_segmenter, find_fiducials_x}

  -- What libfidtrack finds in a frame.
  abbrev pub raws_of : FiducialFinder F D lib → Image → List (FiducialX F)
  raws_of finder frame =
      (find_fiducials_x max_fiducials finder.fidtracker (step_segmenter finder.segmenter frame)
        (columns frame) (rows frame)).0

  abbrev pub seconds : D → D
  seconds timestamp = timestamp ⊘ d.of_int (pos 1000)

  pub find_fiducials-length :
      (finder : FiducialFinder F D lib) (frame : Image) (timestamp : D)
      → length (find_fiducials lib narrow finder frame timestamp).0.tracked_fiducials
        ≡ length finder.tracked_fiducials
  unfolding find_fiducials mark_lost
  find_fiducials-length finder frame timestamp =
      length-map _ _ ∙ length-transfer narrow finder.fsize (seconds timestamp) _ _

  module _ (finder : FiducialFinder F D lib) (frame : Image) (timestamp : D) (i : ℕ)
      (t : TrackedFiducial F D) (ticks : d.eq (seconds timestamp) (seconds timestamp) ≡ true)
      (known : i < max_fiducials) (entry : get_elem? finder.tracked_fiducials i ≡ some t) where
    abbrev first : Option (FiducialX F)
    first = first_with i (raws_of finder frame)

    entry_after :
        get_elem? (find_fiducials lib narrow finder frame timestamp).0.tracked_fiducials i
        ≡ some (
            mark
              (seconds timestamp)
              (apply_first first (touch narrow finder.fsize (seconds timestamp)) t))
    unfolding find_fiducials mark_lost
    entry_after =
        get_elem?-map _ i (mark (seconds timestamp))
        ∙ rw
            (
              get_elem?-transfer narrow finder.fsize (seconds timestamp) ticks
                  (raws_of finder frame) finder.tracked_fiducials i known,
              entry,
            )
            refl

    advanced :
        (o : Option (FiducialX F))
        → d.eq t.timestamp (seconds timestamp) ≡ false
        → mark (seconds timestamp) (apply_first o (touch narrow finder.fsize (seconds timestamp)) t)
          ≡ elim o [
            | none ↦ record t { is_tracked = false }
            | some raw ↦ update narrow finder.fsize (seconds timestamp) raw t
          ]
    unfolding mark touch
    advanced none h = ground arith
    advanced (some raw) h =
        ground (arith, update_stamp narrow finder.fsize (seconds timestamp) ticks raw t)

    at_once :
        (o : Option (FiducialX F))
        → mark (seconds timestamp) (apply_first o (touch narrow finder.fsize (seconds timestamp)) t)
          ≡ (if d.eq t.timestamp (seconds timestamp) && t.is_tracked then t else elim o [
            | none ↦ record t { is_tracked = false }
            | some raw ↦ update narrow finder.fsize (seconds timestamp) raw t
          ])
    unfolding mark touch
    at_once none = ground (arith, not_tracked t)
    at_once (some raw) =
        ground (arith, update_stamp narrow finder.fsize (seconds timestamp) ticks raw t)

    -- Where the time differs from the entry's: it is updated by
    -- the first raw fiducial with the id `i`, and where there is none it is marked as not tracked and
    -- otherwise kept. (The time equals itself, so it is no NaN.)
    pub find_fiducials_entry :
        d.eq t.timestamp (seconds timestamp) ≡ false
        → get_elem? (find_fiducials lib narrow finder frame timestamp).0.tracked_fiducials i
          ≡ some (elim (first_with i (raws_of finder frame)) [
            | none ↦ record t { is_tracked = false }
            | some raw ↦ update narrow finder.fsize (seconds timestamp) raw t
          ])
    find_fiducials_entry h = entry_after ∙ ap some (advanced first h)

    -- The entry `i`, below 4, of the table after a frame whose time equals itself, so that it is no NaN: an entry
    -- that is tracked and was updated at this very time is kept as it is; any other one is updated by the
    -- first raw fiducial with the id `i`, and where there is none it is marked as not tracked and otherwise kept.
    pub find_fiducials_each :
        get_elem? (find_fiducials lib narrow finder frame timestamp).0.tracked_fiducials i
        ≡ some (
            if d.eq t.timestamp (seconds timestamp) && t.is_tracked
            then t
            else elim (first_with i (raws_of finder frame)) [
              | none ↦ record t { is_tracked = false }
              | some raw ↦ update narrow finder.fsize (seconds timestamp) raw t
            ])
    find_fiducials_each = entry_after ∙ ap some (at_once first)

    tracked_after :
        (o : Option (FiducialX F)) (eq tracked : Bool)
        → t.is_tracked ≡ tracked
        → ((if eq && tracked then t else elim o [
          | none ↦ record t { is_tracked = false }
          | some raw ↦ update narrow finder.fsize (seconds timestamp) raw t
        ]).is_tracked
            ≡ true)
          ↔ (((raw : FiducialX F) × (o ≡ some raw)) ⊎ ((eq ≡ true) × (tracked ≡ true)))
    tracked_after o true true e = (λ _. inr (refl, refl), λ _. e)
    tracked_after none true false e = (λ h. cc, λ h. elim h [ inl (r, p) ↦ cc | inr (p, q) ↦ cc ])
    tracked_after none false tracked e =
        (λ h. cc, λ h. elim h [ inl (r, p) ↦ cc | inr (p, q) ↦ cc ])
    tracked_after (some raw) true false e = (
      λ _. inl (raw, refl),
      λ _. (update_stamp narrow finder.fsize (seconds timestamp) ticks raw t).0,
    )
    tracked_after (some raw) false tracked e = (
      λ _. inl (raw, refl),
      λ _. (update_stamp narrow finder.fsize (seconds timestamp) ticks raw t).0,
    )

    found_iff :
        ((raw : FiducialX F) × (first ≡ some raw))
        ↔ Any (λ raw. raw.id ≡ pos i) (raws_of finder frame)
    found_iff = elim (first_with-cases i (raws_of finder frame)) [
      | inl (raw, e, found) ↦ (λ _. found, λ _. (raw, e))
      | inr (e, lost) ↦ (λ (raw, e'). cc, λ x. absurd (lost x))
    ]

    -- After a frame whose time equals itself, so that it is no NaN, the entry `i`, below 4, is tracked exactly when
    -- libfidtrack found a fiducial with the id `i` in the frame, or the entry was tracked and updated at this
    -- very time before.
    pub find_fiducials_tracked_iff :
        (u : TrackedFiducial F D) × (get_elem?
            (find_fiducials lib narrow finder frame timestamp).0.tracked_fiducials
            i
          ≡ some u)
        × ((u.is_tracked ≡ true) ↔ (
            Any (λ raw. raw.id ≡ pos i) (raws_of finder frame)
            ⊎ ((d.eq t.timestamp (seconds timestamp) ≡ true) × (t.is_tracked ≡ true))))
    find_fiducials_tracked_iff =
        let (to, from) =
          tracked_after first (d.eq t.timestamp (seconds timestamp)) t.is_tracked refl in
        (
          _,
          find_fiducials_each,
          (
            λ h. elim (to h) [ inl x ↦ inl (found_iff.0 x) | inr y ↦ inr y ],
            λ h. from (elim h [ inl x ↦ inl (found_iff.1 x) | inr y ↦ inr y ]),
          ),
        )
