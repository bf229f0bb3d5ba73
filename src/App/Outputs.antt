-- ===== src/App/Outputs.antt =====
-- The datagrams among the outputs of a run.
use xtrack.Prelude.{◌≡◌, refl, ap, Bool, true, false, List, [], ◌∷◌, ◌++◌, if◌then◌else◌, ℤ}
use xtrack.OpenCv.{OpenCv}
use xtrack.Tuio.{Datagram}
use xtrack.App.{Output, Printed, sent, printed, contrast, input, waited}

module _ {D : Type 0} {cv : OpenCv D} where
  -- The datagrams among the outputs.
  abbrev pub datagrams_of : List (Output cv) → List Datagram
  datagrams_of [] = []
  datagrams_of (sent datagram ∷ outputs) = datagram ∷ datagrams_of outputs
  datagrams_of (_ ∷ outputs) = datagrams_of outputs

  pub datagrams_of-append :
      (xs ys : List (Output cv)) → datagrams_of (xs ++ ys) ≡ datagrams_of xs ++ datagrams_of ys
  datagrams_of-append [] ys = refl
  datagrams_of-append (sent d ∷ xs) ys = ap (λ zs. d ∷ zs) (datagrams_of-append xs ys)
  datagrams_of-append (printed p ∷ xs) ys = datagrams_of-append xs ys
  datagrams_of-append (contrast m ∷ xs) ys = datagrams_of-append xs ys
  datagrams_of-append (input m ∷ xs) ys = datagrams_of-append xs ys
  datagrams_of-append (waited t ∷ xs) ys = datagrams_of-append xs ys

  datagrams_of-if :
      (b : Bool) (output : Output cv)
      → datagrams_of (output ∷ []) ≡ []
      → datagrams_of (if b then output ∷ [] else []) ≡ []
  datagrams_of-if true output h = h
  datagrams_of-if false output h = refl

  -- The outputs of a round behind its datagram.
  abbrev pub behind :
      Bool
      → Bool
      → cv.Mat
      → List Printed
      → List (Output cv)
      → List (Output cv)
      → ℤ
      → List (Output cv)
  behind b c image lines shown played time =
      (if b then contrast image ∷ [] else [])
      ++ ((if c then printed lines ∷ [] else []) ++ (shown ++ (played ++ waited time ∷ [])))

  pub silent_rest :
      (b c : Bool) (image : cv.Mat) (lines : List Printed) (shown played : List (Output cv))
      (time : ℤ)
      → datagrams_of shown ≡ []
      → datagrams_of played ≡ []
      → datagrams_of (behind b c image lines shown played time) ≡ []
  silent_rest b c image lines shown played time no_shown no_played =
      rw
        (
          datagrams_of-append,
          datagrams_of-append,
          datagrams_of-append,
          datagrams_of-append,
          datagrams_of-if b (contrast image) refl,
          datagrams_of-if c (printed lines) refl,
          no_shown,
          no_played,
        )
        refl

  pub one_datagram :
      (datagram : Datagram) (b c : Bool) (image : cv.Mat) (lines : List Printed)
      (shown played : List (Output cv)) (time : ℤ)
      → datagrams_of shown ≡ []
      → datagrams_of played ≡ []
      → datagrams_of (sent datagram ∷ behind b c image lines shown played time) ≡ datagram ∷ []
  one_datagram datagram b c image lines shown played time no_shown no_played =
      ap (λ ds. datagram ∷ ds) (silent_rest b c image lines shown played time no_shown no_played)
