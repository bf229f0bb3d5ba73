-- ===== src/Mac/Rounds.antt =====
-- The rounds of xtrack-mac/xtrack.cpp against those of xtrack/xtrack.cpp.
use xtrack.Prelude.{
  ◌≡◌, ◌∙◌, refl, ap, ℕ, Bool, true, false, ◌==◌, ◌||◌, List, [], ◌∷◌, ◌++◌, if◌then◌else◌, ℤ,
  Outcome, ok, raise, running, ◌>>=◌, Gives, given, raised, endless, Gives-result,
}
use xtrack.Floating.{Floating}
use xtrack.OpenCv.{OpenCv}
use xtrack.Fiducials.Libfidtrack.{FidTrack}
use xtrack.Tuio.Wosclib.{Wosc}
use xtrack.App.{Config, Tick, Output, Printed, sent, printed, contrast, input, waited}
use xtrack.App.Keys.{press_key}
use xtrack.App.Loop
use xtrack.App.Loop.{cut_frame, show_input, run_recorder}
use xtrack.App.Outputs.{datagrams_of, behind, silent_rest}
use xtrack.App.Silent.{show_input-Gives, run_recorder-Gives}
use xtrack.Tuio
use xtrack.Mac.Tuio as PortTuio
use xtrack.Mac.Recorder.{port}
use xtrack.Mac.Loop.{PortState, process_frame, process_loop}

bind_assoc :
    {A B C : Type 0} (m : Outcome A) (f : A → Outcome B) (g : B → Outcome C)
    → (m >>= f >>= g) ≡ (m >>= λ a. f a >>= g)
bind_assoc (ok a) f g = refl
bind_assoc (raise e) f g = refl
bind_assoc running f g = refl

bind_cong :
    {A B : Type 0} {P : A → Type 0} {m : Outcome A} {f g : A → Outcome B}
    → Gives P m
    → ((a : A) → P a → f a ≡ g a)
    → (m >>= f) ≡ (m >>= g)
bind_cong (given {a} p) h = h a p
bind_cong raised h = refl
bind_cong endless h = refl

module _ {D : Type 0} {cv : OpenCv D} where
  -- The outputs without the datagrams.
  abbrev pub unsent : List (Output cv) → List (Output cv)
  unsent [] = []
  unsent (sent datagram ∷ outputs) = unsent outputs
  unsent (output ∷ outputs) = output ∷ unsent outputs

  unsent-append : (xs ys : List (Output cv)) → unsent (xs ++ ys) ≡ unsent xs ++ unsent ys
  unsent-append [] ys = refl
  unsent-append (sent d ∷ xs) ys = unsent-append xs ys
  unsent-append (printed p ∷ xs) ys = ap (λ zs. printed p ∷ zs) (unsent-append xs ys)
  unsent-append (contrast m ∷ xs) ys = ap (λ zs. contrast m ∷ zs) (unsent-append xs ys)
  unsent-append (input m ∷ xs) ys = ap (λ zs. input m ∷ zs) (unsent-append xs ys)
  unsent-append (waited t ∷ xs) ys = ap (λ zs. waited t ∷ zs) (unsent-append xs ys)

  unsent-none : (xs : List (Output cv)) → datagrams_of xs ≡ [] → unsent xs ≡ xs
  unsent-none [] h = refl
  unsent-none (sent d ∷ xs) h = cc
  unsent-none (printed p ∷ xs) h = ap (λ zs. printed p ∷ zs) (unsent-none xs h)
  unsent-none (contrast m ∷ xs) h = ap (λ zs. contrast m ∷ zs) (unsent-none xs h)
  unsent-none (input m ∷ xs) h = ap (λ zs. input m ∷ zs) (unsent-none xs h)
  unsent-none (waited t ∷ xs) h = ap (λ zs. waited t ∷ zs) (unsent-none xs h)

  -- The outputs of a round.
  unsent_round :
      (b c : Bool) (image : cv.Mat) (lines : List Printed) (shown played : List (Output cv))
      (time : ℤ)
      → datagrams_of shown ≡ []
      → datagrams_of played ≡ []
      → unsent (behind b c image lines shown played time) ≡ behind b c image lines shown played time
  unsent_round b c image lines shown played time no_shown no_played =
      unsent-none _ (silent_rest b c image lines shown played time no_shown no_played)

  -- The same, with what is not sent left away.
  abbrev pub strip : {S : Type 0} → Outcome (S × List (Output cv)) → Outcome (S × List (Output cv))
  strip m = m >>= λ res. ok (res.0, unsent res.1)

  strip-append :
      {S : Type 0} (m : Outcome (S × List (Output cv))) (outputs : List (Output cv))
      → strip (m >>= λ last. ok (last.0, outputs ++ last.1))
        ≡ (strip m >>= λ last. ok (last.0, unsent outputs ++ last.1))
  strip-append (ok a) outputs = ap (λ zs. ok (a.0, zs)) (unsent-append outputs a.1)
  strip-append (raise e) outputs = refl
  strip-append running outputs = refl

module _ {F D : Type 0} ⦃f : Floating F⦄ ⦃d : Floating D⦄ (lib : FidTrack F) (osc : Wosc F)
    (cv : OpenCv D) (narrow : D → F) (data_of : cv.Mat → lib.Image) where
  process_frame_port :
      (fuel : ℕ) (config : Config) (tick : Tick (port cv)) (s : PortState lib cv)
      → strip (Loop.process_frame lib osc (port cv) narrow data_of fuel config tick s)
        ≡ process_frame lib osc cv narrow data_of fuel config tick s
  unfolding process_frame Loop.process_frame PortTuio.send_message Tuio.send_message
  process_frame_port fuel config tick s =
      bind_assoc (cut_frame (port cv) config.make_quadratic tick.frame) _ _
      ∙ bind_cong (Gives-result (cut_frame (port cv) config.make_quadratic tick.frame))
          (λ quadratic e.
            bind_assoc (show_input lib osc (port cv) narrow data_of s.display s.record_mode _ _) _ _
            ∙ bind_cong
                (show_input-Gives lib osc (port cv) narrow data_of s.display s.record_mode _ _)
                (λ shown p.
                  bind_assoc
                    (run_recorder lib osc (port cv) narrow data_of fuel shown.0.record_mode shown.0)
                    _ _
                  ∙ bind_cong
                      (run_recorder-Gives lib osc (port cv) narrow data_of fuel shown.0.record_mode
                        shown.0)
                      (λ played q.
                        bind_assoc (press_key tick.key played.0) _ _
                        ∙ bind_cong (Gives-result (press_key tick.key played.0)) (λ last k.
                          ap
                            (λ zs. ok (
                              record last {
                                term_requested = last.term_requested || tick.signalled;
                              },
                              zs,
                            ))
                            (unsent_round config.show_contrast_window config.print_data _ _ shown.1
                              played.1 _ p.3 q.3)))))

  loop_port :
      (m : Outcome (PortState lib cv × List (Output (port cv))))
      (sending silent : PortState lib cv → Outcome (PortState lib cv × List (Output (port cv))))
      → ((s : PortState lib cv) → strip (sending s) ≡ silent s)
      → strip (
          m >>= λ res.
          if res.0.term_requested
          then ok res
          else (sending res.0 >>= λ last. ok (last.0, res.1 ++ last.1)))
        ≡ (strip m >>= λ res.
            if res.0.term_requested
            then ok res
            else (silent res.0 >>= λ last. ok (last.0, res.1 ++ last.1)))
  loop_port (ok res) sending silent h =
      elim res.0.term_requested
        as (λ b.
          strip (if b then ok res else (sending res.0 >>= λ last. ok (last.0, res.1 ++ last.1))) ≡ (
            if b
            then ok (res.0, unsent res.1)
            else (silent res.0 >>= λ last. ok (last.0, unsent res.1 ++ last.1)))) [
              | true ↦ refl
              | false ↦
                  strip-append (sending res.0) res.1
                  ∙ ap (λ m. m >>= λ last. ok (last.0, unsent res.1 ++ last.1)) (h res.0)
            ]
  loop_port (raise e) sending silent h = refl
  loop_port running sending silent h = refl

  -- The rounds of the port are those of the program, on the port's OpenCV that finds no files, with the
  -- datagrams left out of what they give: the results, the exceptions and the endless runs are the same.
  pub process_loop_port :
      (fuel : ℕ) (config : Config) (ticks : List (Tick (port cv))) (s : PortState lib cv)
      → strip (Loop.process_loop lib osc (port cv) narrow data_of fuel config ticks s)
        ≡ process_loop lib osc cv narrow data_of fuel config ticks s
  unfolding process_loop Loop.process_loop
  process_loop_port fuel config [] s = refl
  process_loop_port fuel config (tick ∷ ticks) s =
      elim (cv.rows tick.frame == 0 || cv.cols tick.frame == 0)
        as (λ b.
          strip (
            if b
            then ok (s, [])
            else (Loop.process_frame lib osc (port cv) narrow data_of fuel config tick s >>= λ res.
                if res.0.term_requested
                then ok res
                else (Loop.process_loop lib osc (port cv) narrow data_of fuel config ticks res.0
                    >>= λ last. ok (last.0, res.1 ++ last.1))))
          ≡ (if b
              then ok (s, [])
              else (process_frame lib osc cv narrow data_of fuel config tick s >>= λ res.
                  if res.0.term_requested
                  then ok res
                  else (process_loop lib osc cv narrow data_of fuel config ticks res.0 >>= λ last.
                      ok (last.0, res.1 ++ last.1))))) [
                        | true ↦ refl
                        | false ↦
                            loop_port
                              (Loop.process_frame lib osc (port cv) narrow data_of fuel config tick
                                s)
                              _ _ (process_loop_port fuel config ticks)
                            ∙ ap
                                (λ m. m >>= λ res.
                                  if res.0.term_requested
                                  then ok res
                                  else (process_loop lib osc cv narrow data_of fuel config ticks
                                        res.0
                                      >>= λ last. ok (last.0, res.1 ++ last.1)))
                                (process_frame_port fuel config tick s)
                      ]
