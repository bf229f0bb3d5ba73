-- ===== src/App/Sharing/Prepare.antt =====
-- The steps from the part of the frame to the image with the threshold give what they give without
-- sharing.
use mathlib.Core.Path.{subst}
use xtrack.Prelude.{
  ℕ, ◌<◌, ◌==◌, ◌≡◌, ◌≢◌, ◌∙◌, refl, ap, Bool, true, false, inl, inr, Bool-cases, if◌then◌else◌,
  arith,
}
use xtrack.OpenCv.{OpenCv}
use xtrack.App.{Config}
use xtrack.App.Loop.{gray_of}
use xtrack.App.Sharing.{Store, Images, alloc, flip_image, gray_image, prepare}
use xtrack.App.Sharing.Pixels.{Created, create-Created, alloc-Created, after-Created}
use xtrack.App.Sharing.Apart.{SharingLaws, Apart, flip_put-Apart, gray_put-Apart, thresh_put-Apart}

module _ {D : Type 0} (cv : OpenCv D) (reuses : cv.Mat → cv.Mat → Bool)
    (laws : SharingLaws cv reuses) where
  open cv use {Mat, turn_round, channels, to_gray, threshold}

  flip_image-Created :
      (rotate : Bool) (quadratic : Mat) (flip : ℕ) (st : Store Mat)
      → 0 < st.next
      → flip < st.next
      → Created reuses st flip
          (if rotate then turn_round quadratic else quadratic)
          (flip_image cv reuses rotate quadratic flip st)
  unfolding flip_image
  flip_image-Created true quadratic flip st some_next was =
      let c = alloc-Created reuses st flip quadratic some_next in
      subst
        (λ m. Created reuses st flip (turn_round m) (flip_image cv reuses true quadratic flip st))
        c.holds
        (after-Created reuses st quadratic flip _ _ (
          create-Created reuses (alloc reuses st quadratic).1 flip _ (ground arith) (ground arith)))
  flip_image-Created false quadratic flip st some_next was =
      alloc-Created reuses st flip quadratic some_next

  -- The gray image, at an address of the loop; the part of the frame stays.
  abbrev Grayed : Images → Store Mat → ℕ × Store Mat → Type 0
  Grayed im st res =
      Apart cv reuses (record im { gray = res.0 }) res.1
      × (res.1.cell im.flip ≡ st.cell im.flip)
      × (res.1.cell res.0 ≡ gray_of cv (st.cell im.flip))
      × (res.0 ≢ 0)

  gray_image-Grayed :
      (im : Images) (st : Store Mat)
      → Apart cv reuses im st
      → im.flip ≢ 0
      → Grayed im st (gray_image cv reuses im.flip im.gray st)
  unfolding gray_image gray_of
  gray_image-Grayed im st h filled = elim (Bool-cases (channels (st.cell im.flip) == 3)) [
    | inl color ↦
        let c =
          create-Created reuses st im.gray (to_gray (st.cell im.flip)) h.some_next h.gray_old in
        let (apart, same) = gray_put-Apart cv reuses laws im st _ _ h color filled c in
        rw color (apart, same, c.holds, c.filled)
    | inr gray ↦ rw gray (
      record {
        some_next = h.some_next;
        flip_old = h.flip_old;
        gray_old = h.flip_old;
        thresh_old = h.thresh_old;
        thresh_flip = h.thresh_flip;
        thresh_gray = h.thresh_flip;
        colored = λ _ _. gray;
        empty = h.empty;
      },
      refl,
      refl,
      filled,
    )
  ]

  -- What the steps leave: the part of the frame, turned where it shall be, and the image with the threshold.
  pub record Prepared (config : Config) (quadratic : Mat) (im : Images) (res : Images × Store Mat)
      : Type 0 where
    pub apart : Apart cv reuses res.0 res.1
    pub flipped :
        res.1.cell res.0.flip ≡ (if config.rotate_image then turn_round quadratic else quadratic)
    pub black_white :
        res.1.cell res.0.thresh
        ≡ threshold
            (gray_of cv (if config.rotate_image then turn_round quadratic else quadratic))
            config.threshold
    pub same_display : res.0.display ≡ im.display
    pub flip_filled : res.0.flip ≢ 0
    pub thresh_filled : res.0.thresh ≢ 0

  pub prepare-Prepared :
      (config : Config) (quadratic : Mat) (im : Images) (st : Store Mat)
      → Apart cv reuses im st
      → Prepared config quadratic im (prepare cv reuses config quadratic im st)
  unfolding prepare
  prepare-Prepared config quadratic im st h =
      let c = flip_image-Created config.rotate_image quadratic im.flip st h.some_next h.flip_old in
      let h₁ = flip_put-Apart cv reuses laws im st _ _ h c in
      let (h₂, same, gray, gray_filled) = gray_image-Grayed _ _ h₁ c.filled in
      let t = create-Created reuses _ im.thresh _ h₂.some_next h₂.thresh_old in
      let (h₃, same') = thresh_put-Apart cv reuses laws _ _ _ _ h₂ c.filled gray_filled t in
      record {
        apart = h₃;
        flipped = same' ∙ same ∙ c.holds;
        black_white =
            t.holds ∙ ap (λ m. threshold m config.threshold) (gray ∙ ap (gray_of cv) c.holds);
        same_display = refl;
        flip_filled = c.filled;
        thresh_filled = t.filled;
      }
