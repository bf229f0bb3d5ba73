-- ===== src/App/Shown.antt =====
-- What the window for the input image shows in a run, and how many rounds a run has.
use xtrack.Prelude.{
  ℕ, suc, ◌+◌, if◌then◌else◌, arith, ◌≡◌, refl, ap, Bool, true, false, ◌==◌, ◌||◌, List, [], ◌∷◌,
  ◌++◌, ℤ,
}
use xtrack.OpenCv.{OpenCv}
use xtrack.App.{Tick, Output, Printed, sent, printed, contrast, input, waited}
use xtrack.App.Outputs.{behind}
use xtrack.App.Silent.{quits}

module _ {D : Type 0} {cv : OpenCv D} where
  -- The images that the window for the input image shows.
  abbrev pub inputs_of : List (Output cv) → List cv.Mat
  inputs_of [] = []
  inputs_of (input m ∷ outputs) = m ∷ inputs_of outputs
  inputs_of (_ ∷ outputs) = inputs_of outputs

  pub inputs_of-append :
      (xs ys : List (Output cv)) → inputs_of (xs ++ ys) ≡ inputs_of xs ++ inputs_of ys
  inputs_of-append [] ys = refl
  inputs_of-append (input m ∷ xs) ys = ap (λ zs. m ∷ zs) (inputs_of-append xs ys)
  inputs_of-append (sent d ∷ xs) ys = inputs_of-append xs ys
  inputs_of-append (printed p ∷ xs) ys = inputs_of-append xs ys
  inputs_of-append (contrast m ∷ xs) ys = inputs_of-append xs ys
  inputs_of-append (waited t ∷ xs) ys = inputs_of-append xs ys

module _ {D : Type 0} (cv : OpenCv D) where
  abbrev pub no_frame_in : Tick cv → Bool
  no_frame_in tick = cv.rows tick.frame == 0 || cv.cols tick.frame == 0

  -- How many rounds a run has: up to an empty frame of the camera, or up to the round in which a key or a
  -- signal asks for the end.
  abbrev pub rounds_of : List (Tick cv) → ℕ
  rounds_of [] = 0
  rounds_of (tick ∷ ticks) =
      if no_frame_in tick
      then 0
      else if quits tick.key || tick.signalled
      then 1
      else rounds_of ticks + 1

  pub rounds_none :
      (tick : Tick cv) (ticks : List (Tick cv))
      → no_frame_in tick ≡ true
      → 0 ≡ rounds_of (tick ∷ ticks)
  rounds_none tick ticks e = rw e refl

  pub rounds_last :
      (tick : Tick cv) (ticks : List (Tick cv))
      → no_frame_in tick ≡ false
      → (quits tick.key || tick.signalled) ≡ true
      → 1 ≡ rounds_of (tick ∷ ticks)
  rounds_last tick ticks e q = rw (e, q) refl

  pub rounds_more :
      (tick : Tick cv) (ticks : List (Tick cv)) (n : ℕ)
      → no_frame_in tick ≡ false
      → (quits tick.key || tick.signalled) ≡ false
      → n ≡ rounds_of ticks
      → suc n ≡ rounds_of (tick ∷ ticks)
  rounds_more tick ticks n e q h = rw (e, q) (omega (arith, h))

  -- In a round that shows one image.
  pub one_input :
      (b c : Bool) (contrasted image : cv.Mat) (lines : List Printed) (time : ℤ)
      → inputs_of (behind {cv = cv} b c contrasted lines (input image ∷ []) [] time) ≡ image ∷ []
  one_input true true contrasted image lines time = refl
  one_input true false contrasted image lines time = refl
  one_input false true contrasted image lines time = refl
  one_input false false contrasted image lines time = refl

  pub one_played :
      (b c : Bool) (contrasted image : cv.Mat) (lines : List Printed) (time : ℤ)
      → inputs_of (behind {cv = cv} b c contrasted lines [] (input image ∷ []) time) ≡ image ∷ []
  one_played true true contrasted image lines time = refl
  one_played true false contrasted image lines time = refl
  one_played false true contrasted image lines time = refl
  one_played false false contrasted image lines time = refl
