-- ===== src/Fiducials/Motion.antt =====
-- Speeds and accelerations over the first sightings, and the direction of a turn.
use xtrack.Prelude.{◌≡◌, ◌⊎◌, true, false, pos, arith}
use xtrack.Floating.{Floating, ◌⊕◌, ◌⊖◌, ◌⊗◌, ◌⊘◌, ◌≺◌}
use xtrack.Fiducials.Libfidtrack.{FiducialX}
use xtrack.Fiducials.Tracked.{TrackedFiducial, Size, fresh, is_nan, pi, short_turn, update}

abbrev pub full_turn : {F : Type 0} ⦃f : Floating F⦄ → F
full_turn ⦃f⦄ = f.of_int (pos 2) ⊗ pi

module _ {F : Type 0} ⦃f : Floating F⦄ (asym : (a b : F) → a ≺ b → f.lt b a ≡ false)
    (trans : (a b c : F) → a ≺ b → b ≺ c → a ≺ c)
    (one_way : (a : F)
      → f.abs (a ⊕ full_turn) ≺ f.abs a
      → f.lt (f.abs (a ⊖ full_turn)) (f.abs a) ≡ false) where
  -- None of the three is shorter than the turn.
  abbrev pub NoneShorter : F → F → F → F → Type 0
  NoneShorter turn a b c =
      (f.lt (f.abs a) (f.abs turn) ≡ false)
      × (f.lt (f.abs b) (f.abs turn) ≡ false)
      × (f.lt (f.abs c) (f.abs turn) ≡ false)

  -- The turn is the difference of the angles or one full turn more or less, and none of these three is
  -- shorter than it. (`<` is asymmetric and transitive, and an angle that a full turn more makes shorter
  -- is not made shorter by a full turn less.)
  pub short_turn_shortest :
      (delta : F)
      → ((short_turn delta ≡ delta)
          ⊎ ((short_turn delta ≡ delta ⊕ full_turn) ⊎ (short_turn delta ≡ delta ⊖ full_turn)))
        × NoneShorter (short_turn delta) delta (delta ⊕ full_turn) (delta ⊖ full_turn)
  unfolding short_turn
  short_turn_shortest delta =
      let up = f.abs (delta ⊕ full_turn) in
      let down = f.abs (delta ⊖ full_turn) in
      ground (
        arith,
        asym up (f.abs delta),
        asym down (f.abs delta),
        asym (f.abs delta) (f.abs delta),
        asym up up,
        asym down down,
        trans up down (f.abs delta),
        trans down up (f.abs delta),
        one_way delta,
      )

module _ {F D : Type 0} ⦃f : Floating F⦄ ⦃d : Floating D⦄ (narrow : D → F) (fsize : Size) where
  abbrev across : FiducialX F → F
  across raw = raw.x ⊘ f.of_int (pos fsize.width)

  abbrev down : FiducialX F → F
  down raw = raw.y ⊘ f.of_int (pos fsize.height)

  abbrev pub length_of : F → F → F
  length_of u v = f.sqrt (u ⊗ u ⊕ v ⊗ v)

  abbrev pub elapsed : D → D → F
  elapsed from to = narrow (to ⊖ from)

  abbrev pub rate : F → F → F → F
  rate old new time = (new ⊖ old) ⊘ time

  -- An entry that is tracked, at the place that a raw fiducial shows.
  abbrev pub sighted : D → FiducialX F → F → F → F → F → F → TrackedFiducial F D
  sighted s raw xspeed yspeed aspeed xyacc aacc = record {
    is_tracked = true;
    timestamp = s;
    x = across raw;
    y = down raw;
    a = raw.angle;
    xspeed = xspeed;
    yspeed = yspeed;
    aspeed = aspeed;
    xyacc = xyacc;
    aacc = aacc;
  }

  abbrev IsNumber : F → Type 0
  IsNumber v = is_nan v ≡ false

  -- The position and the angle are numbers.
  abbrev IsPlaced : FiducialX F → Type 0
  IsPlaced raw = IsNumber (across raw) × IsNumber (down raw) × IsNumber raw.angle

  -- The speeds that one sighting and the next one give.
  abbrev pub xspeed_of : D → FiducialX F → D → FiducialX F → F
  xspeed_of s₁ r₁ s₂ r₂ = rate (across r₁) (across r₂) (elapsed s₁ s₂)

  abbrev pub yspeed_of : D → FiducialX F → D → FiducialX F → F
  yspeed_of s₁ r₁ s₂ r₂ = rate (down r₁) (down r₂) (elapsed s₁ s₂)

  abbrev pub aspeed_of : D → FiducialX F → D → FiducialX F → F
  aspeed_of s₁ r₁ s₂ r₂ = short_turn (r₂.angle ⊖ r₁.angle) ⊘ elapsed s₁ s₂

  module _ (no_number : is_nan f.nan ≡ true) where
    -- The first sighting sets the position and the angle, and no speed.
    update-fresh :
        (s : D) (raw : FiducialX F)
        → update narrow fsize s raw fresh ≡ sighted s raw f.nan f.nan f.nan f.nan f.nan
    unfolding update fresh
    update-fresh s raw = rw no_number

    -- The second sets the speeds, and no acceleration.
    update-sighted :
        (s₁ s₂ : D) (r₁ r₂ : FiducialX F)
        → IsPlaced r₁
        → update narrow fsize s₂ r₂ (sighted s₁ r₁ f.nan f.nan f.nan f.nan f.nan)
          ≡ sighted s₂ r₂
              (xspeed_of s₁ r₁ s₂ r₂)
              (yspeed_of s₁ r₁ s₂ r₂)
              (aspeed_of s₁ r₁ s₂ r₂)
              f.nan
              f.nan
    unfolding update
    update-sighted s₁ s₂ r₁ r₂ (hx, hy, ha) = rw (no_number, hx, hy, ha)

    -- The third sets the accelerations too.
    update-moving :
        (s₁ s₂ : D) (r₁ r₂ : FiducialX F) (u v w p q : F)
        → IsPlaced r₁
        → IsNumber u
        → IsNumber v
        → IsNumber w
        → update narrow fsize s₂ r₂ (sighted s₁ r₁ u v w p q)
          ≡ sighted s₂ r₂
              (xspeed_of s₁ r₁ s₂ r₂)
              (yspeed_of s₁ r₁ s₂ r₂)
              (aspeed_of s₁ r₁ s₂ r₂)
              (rate
                (length_of u v)
                (length_of (xspeed_of s₁ r₁ s₂ r₂) (yspeed_of s₁ r₁ s₂ r₂))
                (elapsed s₁ s₂))
              (rate w (aspeed_of s₁ r₁ s₂ r₂) (elapsed s₁ s₂))
    unfolding update
    update-moving s₁ s₂ r₁ r₂ u v w p q (hx, hy, ha) hu hv hw = rw (hx, hy, ha, hu, hv, hw)

    -- A fresh entry after three sightings, at positions and angles that are numbers and with speeds
    -- between the first two that are numbers: the place is that of the last sighting, each speed is the
    -- difference to the sighting before over the time that passed, and each acceleration is the
    -- difference of the last two speeds over the last of these times.
    pub update_three_times :
        (s₁ s₂ s₃ : D) (r₁ r₂ r₃ : FiducialX F)
        → IsPlaced r₁
        → IsPlaced r₂
        → IsNumber (xspeed_of s₁ r₁ s₂ r₂)
        → IsNumber (yspeed_of s₁ r₁ s₂ r₂)
        → IsNumber (aspeed_of s₁ r₁ s₂ r₂)
        → update narrow fsize s₃ r₃ (update narrow fsize s₂ r₂ (update narrow fsize s₁ r₁ fresh))
          ≡ sighted s₃ r₃
              (xspeed_of s₂ r₂ s₃ r₃)
              (yspeed_of s₂ r₂ s₃ r₃)
              (aspeed_of s₂ r₂ s₃ r₃)
              (rate
                (length_of (xspeed_of s₁ r₁ s₂ r₂) (yspeed_of s₁ r₁ s₂ r₂))
                (length_of (xspeed_of s₂ r₂ s₃ r₃) (yspeed_of s₂ r₂ s₃ r₃))
                (elapsed s₂ s₃))
              (rate (aspeed_of s₁ r₁ s₂ r₂) (aspeed_of s₂ r₂ s₃ r₃) (elapsed s₂ s₃))
    update_three_times s₁ s₂ s₃ r₁ r₂ r₃ h₁ h₂ hu hv hw =
        rw (update-fresh s₁ r₁, update-sighted s₁ s₂ r₁ r₂ h₁)
          (update-moving s₂ s₃ r₂ r₃ _ _ _ f.nan f.nan h₂ hu hv hw)
