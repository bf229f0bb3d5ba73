-- ===== src/Tests/Images.antt =====
-- Tests of the images that share their pixels, and of the order of the arguments.
use xtrack.Prelude.{◌≡◌, refl, ◌↔◌, ◌==◌, Bool, Option, [], ◌∷◌, ok, ◌>>=◌}
use xtrack.Text.{Text, codes}
use xtrack.Parameters.{Parameters, find}
use xtrack.CommandLine.{add_params}
use xtrack.CommandLine.Last.{LastSetting, find-add_params}
use xtrack.App.Setup.{set_up}
use xtrack.App.Loop.{process_loop, finish}
use xtrack.App.Process.{process}
use xtrack.App.Sharing.{shared_process}
use xtrack.App.Sharing.Apart.{SharingLaws}
use xtrack.App.Sharing.Run.{process_sharing}
use xtrack.Fiducials.Tracked.{Size}
use xtrack.Tests.Stubs.{numbers, cv, osc, lib}
use xtrack.Tests.Runs.{narrow, shown, ticks, converting}

abbrev reuses : Size → Size → Bool
reuses m n = m.width == n.width

abbrev sharing_laws : SharingLaws cv reuses
sharing_laws = record {
  same_channels = λ m n e. refl;
  poly_channels = λ m points c. refl;
  lines_channels = λ m points c t. refl;
  text_channels = λ m text p c. refl;
}

-- The frame is turned, and the window for the input image is open.
abbrev wanted : Parameters
wanted =
    (codes "recfpsscale", codes "1")
    ∷ (codes "rotate", codes "true")
    ∷ (codes "showinput", codes "true")
    ∷ []

process_sharing_example :
    (shared_process lib osc cv narrow (λ m. shown) reuses 3 converting ticks wanted ≡ (do
      (config, start) ← set_up lib cv converting wanted
      (last, outputs) ← process_loop lib osc cv narrow (λ m. shown) 3 config ticks start
      recorder ← finish lib osc cv narrow (λ m. shown) last
      ok (recorder, outputs)))
    × ((shared_process lib osc cv narrow (λ m. shown) reuses 3 converting ticks wanted >>= λ _.
          ok tt)
        ≡ process lib osc cv narrow (λ m. shown) 3 converting ticks wanted)
process_sharing_example =
    process_sharing lib osc cv narrow (λ m. shown) reuses sharing_laws 3 converting ticks wanted

find-add_params_example :
    (qs : Parameters) × (add_params [] (codes "port=1" ∷ codes "=" ∷ codes "port=2" ∷ []) ≡ ok qs)
    × ((key : Text) (o : Option Text)
        → LastSetting (codes "port=1" ∷ codes "=" ∷ codes "port=2" ∷ []) key o ↔ (find qs key ≡ o))
find-add_params_example = find-add_params (codes "port=1" ∷ codes "=" ∷ codes "port=2" ∷ [])
