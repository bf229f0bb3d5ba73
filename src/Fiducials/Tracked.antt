-- ===== src/Fiducials/Tracked.antt =====
-- xtrack/fiducials.cpp and fiducials.h: what the program keeps of one fiducial, and how a raw fiducial
-- that libfidtrack found updates it.
use xtrack.Prelude.{ℕ, Bool, true, false, not, ◌&&◌, if◌then◌else◌, pos}
use xtrack.Floating.{Floating, ◌⊕◌, ◌⊖◌, ◌⊗◌, ◌⊘◌}
use xtrack.Fiducials.Libfidtrack.{FiducialX}

pub record TrackedFiducial (F D : Type 0) : Type 0 where
  pub is_tracked : Bool
  pub timestamp : D
  pub x : F
  pub y : F
  pub a : F
  pub xspeed : F
  pub yspeed : F
  pub aspeed : F
  pub xyacc : F
  pub aacc : F

-- width and height of an image, cv::Size
pub record Size : Type 0 where
  pub width : ℕ
  pub height : ℕ

module _ {F : Type 0} ⦃f : Floating F⦄ where
  unfoldable pub is_nan : F → Bool
  is_nan v = not (f.eq v v)

  -- The float constant `PI`, written with 14 decimals.
  unfoldable pub pi : F
  pi = f.literal 314159265358979 100000000000000

  -- The turn that takes the fiducial from the old angle to the new one, the short way round.
  unfoldable pub short_turn : F → F
  short_turn delta =
      let full = f.of_int (pos 2) ⊗ pi in
      if f.lt (f.abs (delta ⊕ full)) (f.abs delta)
      then delta ⊕ full
      else if f.lt (f.abs (delta ⊖ full)) (f.abs delta)
      then delta ⊖ full
      else delta

module _ {F D : Type 0} ⦃f : Floating F⦄ ⦃d : Floating D⦄ where
  unfoldable pub fresh : TrackedFiducial F D
  fresh = record {
    is_tracked = false;
    timestamp = d.literal 0 1;
    x = f.nan;
    y = f.nan;
    a = f.nan;
    xspeed = f.nan;
    yspeed = f.nan;
    aspeed = f.nan;
    xyacc = f.nan;
    aacc = f.nan;
  }

  module _ (narrow : D → F) (fsize : Size) (sec_time : D) where
    -- The new position and the speeds; `speed` is the length of the motion vector.
    unfoldable pub move : F → FiducialX F → TrackedFiducial F D → TrackedFiducial F D
    move time_diff raw old =
        let x = raw.x ⊘ f.of_int (pos fsize.width) in
        let xspeed = if is_nan old.x then old.xspeed else (x ⊖ old.x) ⊘ time_diff in
        let y = raw.y ⊘ f.of_int (pos fsize.height) in
        let yspeed = if is_nan old.y then old.yspeed else (y ⊖ old.y) ⊘ time_diff in
        let old_speed = f.sqrt (old.xspeed ⊗ old.xspeed ⊕ old.yspeed ⊗ old.yspeed) in
        let new_speed = f.sqrt (xspeed ⊗ xspeed ⊕ yspeed ⊗ yspeed) in
        let xyacc =
          if not (is_nan old.xspeed) && not (is_nan old.yspeed)
          then (new_speed ⊖ old_speed) ⊘ time_diff
          else old.xyacc in
        record old { x = x; y = y; xspeed = xspeed; yspeed = yspeed; xyacc = xyacc }

    -- The new angle, its speed and its acceleration.
    unfoldable pub turn : F → FiducialX F → TrackedFiducial F D → TrackedFiducial F D
    turn time_diff raw old =
        let aspeed = short_turn (raw.angle ⊖ old.a) ⊘ time_diff in
        if is_nan old.a then record old { a = raw.angle } else record old {
          a = raw.angle;
          aspeed = aspeed;
          aacc = if is_nan old.aspeed then old.aacc else (aspeed ⊖ old.aspeed) ⊘ time_diff;
        }

    unfoldable pub update : FiducialX F → TrackedFiducial F D → TrackedFiducial F D
    unfolding move turn
    update raw old =
        let time_diff = narrow (sec_time ⊖ old.timestamp) in
        turn time_diff raw
          (move time_diff raw (record old { is_tracked = true; timestamp = sec_time }))
