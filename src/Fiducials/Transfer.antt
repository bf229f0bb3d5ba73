-- ===== src/Fiducials/Transfer.antt =====
-- One pass over the raw fiducials, entry by entry.
use mathlib.Core.Option
use xtrack.Prelude.{
  ℕ, zero, suc, ◌<◌, ◌≡◌, ◌∙◌, ◌↔◌, refl, ap, inl, inr, Bool, true, false, Option, none, some, List,
  [], ◌∷◌, map, ltb, ◌==◌, if◌then◌else◌, length, length-modify, get_elem?, modify, Bool-cases, ℤ,
  pos, negsuc, arith,
}
use xtrack.Floating.{Floating}
use xtrack.Fiducials.Libfidtrack.{FiducialX}
use xtrack.Fiducials.Tracked.{TrackedFiducial, Size, update}
use xtrack.Fiducials.{max_fiducials, touch, transfer_one, transfer}

abbrev pub has_id : ℕ → ℤ → Bool
has_id i (pos n) = n == i
has_id i (negsuc n) = false

pub has_id_iff : (i : ℕ) (id : ℤ) → (has_id i id ≡ true) ↔ (id ≡ pos i)
has_id_iff i (pos n) = ground arith
has_id_iff i (negsuc n) = (λ e. cc, λ e. cc)

-- The first raw fiducial with an id.
unfoldable pub first_with : {F : Type 0} → ℕ → List (FiducialX F) → Option (FiducialX F)
first_with i [] = none
first_with i (raw ∷ raws) = if has_id i raw.id then some raw else first_with i raws

abbrev pub apply_first {ℓ κ} : {A : Type ℓ} {R : Type κ} → Option R → (R → A → A) → A → A
apply_first none g a = a
apply_first (some r) g a = g r a

get_elem?-modify {ℓ} :
    {A : Type ℓ} (xs : List A) (i j : ℕ) (g : A → A)
    → get_elem? (modify xs i g) j
      ≡ (if i == j then Option.map g (get_elem? xs j) else get_elem? xs j)
get_elem?-modify [] i j g = ground arith
get_elem?-modify (x ∷ xs) zero zero g = refl
get_elem?-modify (x ∷ xs) zero (suc j) g = ground arith
get_elem?-modify (x ∷ xs) (suc i) zero g = ground arith
get_elem?-modify (x ∷ xs) (suc i) (suc j) g = ground (arith, get_elem?-modify xs i j g)

pub get_elem?-map {ℓ κ} :
    {A : Type ℓ} {B : Type κ} (xs : List A) (i : ℕ) (g : A → B)
    → get_elem? (map g xs) i ≡ Option.map g (get_elem? xs i)
get_elem?-map [] i g = refl
get_elem?-map (x ∷ xs) zero g = refl
get_elem?-map (x ∷ xs) (suc i) g = get_elem?-map xs i g

map_untouched {ℓ κ} :
    {A : Type ℓ} {R : Type κ} (g : R → A → A) (o : Option A) → o ≡ Option.map (apply_first none g) o
map_untouched g none = refl
map_untouched g (some a) = refl

module _ {F D : Type 0} ⦃f : Floating F⦄ ⦃d : Floating D⦄ (narrow : D → F) (fsize : Size)
    (sec_time : D) where
  length-transfer_one :
      (raw : FiducialX F) (table : List (TrackedFiducial F D))
      → length (transfer_one narrow fsize sec_time raw table) ≡ length table
  unfolding transfer_one
  length-transfer_one raw table =
      elim raw.id
        as (λ id.
          length {A = TrackedFiducial F D} (elim id [
            | negsuc _ ↦ table
            | pos i ↦
                if ltb i max_fiducials
                then modify table i (touch narrow fsize sec_time raw)
                else table
          ])
          ≡ length table) [
            | negsuc n ↦ refl
            | pos n ↦ ground (arith, length-modify table n (touch narrow fsize sec_time raw))
          ]

  pub length-transfer :
      (raws : List (FiducialX F)) (table : List (TrackedFiducial F D))
      → length (transfer narrow fsize sec_time raws table) ≡ length table
  unfolding transfer
  length-transfer [] table = refl
  length-transfer (raw ∷ raws) table =
      length-transfer raws (transfer_one narrow fsize sec_time raw table)
      ∙ length-transfer_one raw table

  get_elem?-transfer_one :
      (raw : FiducialX F) (table : List (TrackedFiducial F D)) (i : ℕ)
      → i < max_fiducials
      → get_elem? (transfer_one narrow fsize sec_time raw table) i ≡ (
          if has_id i raw.id
          then Option.map (touch narrow fsize sec_time raw) (get_elem? table i)
          else get_elem? table i)
  unfolding transfer_one
  get_elem?-transfer_one raw table i h =
      elim raw.id
        as (λ id.
          get_elem? {A = TrackedFiducial F D}
            (elim id [
              | negsuc _ ↦ table
              | pos n ↦
                  if ltb n max_fiducials
                  then modify table n (touch narrow fsize sec_time raw)
                  else table
            ])
            i
          ≡ (if has_id i id
              then Option.map (touch narrow fsize sec_time raw) (get_elem? table i)
              else get_elem? table i)) [
                | negsuc n ↦ refl
                | pos n ↦
                    ground (arith, get_elem?-modify table n i (touch narrow fsize sec_time raw))
              ]

  module _ (ticks : d.eq sec_time sec_time ≡ true) where
    pub update_stamp :
        (raw : FiducialX F) (t : TrackedFiducial F D)
        → ((update narrow fsize sec_time raw t).is_tracked ≡ true)
          × ((update narrow fsize sec_time raw t).timestamp ≡ sec_time)
    unfolding update
    update_stamp raw t = ground arith

    -- A second raw fiducial with the same id changes nothing.
    touch_twice :
        (raw raw' : FiducialX F) (t : TrackedFiducial F D)
        → touch narrow fsize sec_time raw' (touch narrow fsize sec_time raw t)
          ≡ touch narrow fsize sec_time raw t
    unfolding touch
    touch_twice raw raw' t = ground (arith, update_stamp raw t)

    apply_touched :
        (raw : FiducialX F) (rest : Option (FiducialX F)) (t : TrackedFiducial F D)
        → apply_first rest (touch narrow fsize sec_time) (touch narrow fsize sec_time raw t)
          ≡ touch narrow fsize sec_time raw t
    apply_touched raw none t = refl
    apply_touched raw (some raw') t = touch_twice raw raw' t

    map_touched :
        (raw : FiducialX F) (rest : Option (FiducialX F)) (o : Option (TrackedFiducial F D))
        → Option.map
            (apply_first rest (touch narrow fsize sec_time))
            (Option.map (touch narrow fsize sec_time raw) o)
          ≡ Option.map (touch narrow fsize sec_time raw) o
    map_touched raw rest none = refl
    map_touched raw rest (some t) = ap some (apply_touched raw rest t)

    -- Each entry is touched by the first raw fiducial that has its id, and by no other.
    pub get_elem?-transfer :
        (raws : List (FiducialX F)) (table : List (TrackedFiducial F D)) (i : ℕ)
        → i < max_fiducials
        → get_elem? (transfer narrow fsize sec_time raws table) i
          ≡ Option.map
              (apply_first (first_with i raws) (touch narrow fsize sec_time))
              (get_elem? table i)
    unfolding transfer first_with
    get_elem?-transfer [] table i h =
        map_untouched (touch narrow fsize sec_time) (get_elem? table i)
    get_elem?-transfer (raw ∷ raws) table i h =
        get_elem?-transfer raws (transfer_one narrow fsize sec_time raw table) i h
        ∙ rw (get_elem?-transfer_one raw table i h) (elim (Bool-cases (has_id i raw.id)) [
          | inl same ↦ rw same (map_touched raw (first_with i raws) (get_elem? table i))
          | inr other ↦ rw other
        ])
