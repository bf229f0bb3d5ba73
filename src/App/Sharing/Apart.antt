-- ===== src/App/Sharing/Apart.antt =====
-- Which headers of `process` share their pixels, and that the steps up to the threshold keep to it.
use xtrack.Prelude.{ℕ, ◌<◌, ◌==◌, ◌≡◌, ◌≢◌, ◌∙◌, sym, ap, Bool, true, false, List, ℤ, arith}
use xtrack.Text.{Text}
use xtrack.OpenCv.{OpenCv, Point}
use xtrack.App.Sharing.{Store, Images, write}
use xtrack.App.Sharing.Pixels.{cell-write, cell-write_else, Created}

module _ {D : Type 0} (cv : OpenCv D) (reuses : cv.Mat → cv.Mat → Bool) where
  open cv use {Mat, Color, turn_round, channels, to_gray, threshold}

  -- Documented behaviour: pixels are reused for an image of the same type only, and drawing keeps the
  -- type.
  pub record SharingLaws : Type 0 where
    pub same_channels : (m n : Mat) → reuses m n ≡ true → channels m ≡ channels n
    pub poly_channels :
        (m : Mat) (points : List Point) (c : Color)
        → channels (cv.fill_convex_poly m points c) ≡ channels m
    pub lines_channels :
        (m : Mat) (points : List Point) (c : Color) (t : ℤ)
        → channels (cv.polylines m points c t) ≡ channels m
    pub text_channels :
        (m : Mat) (text : Text) (p : Point) (c : Color)
        → channels (cv.put_text m text p c) ≡ channels m

  -- The image with the threshold has pixels of its own, and the gray image shares those of the frame
  -- only where the frame is gray.
  pub record Apart (im : Images) (st : Store Mat) : Type 0 where
    pub some_next : 0 < st.next
    pub flip_old : im.flip < st.next
    pub gray_old : im.gray < st.next
    pub thresh_old : im.thresh < st.next
    pub thresh_flip : im.thresh ≢ 0 → im.thresh ≢ im.flip
    pub thresh_gray : im.thresh ≢ 0 → im.thresh ≢ im.gray
    pub colored : im.flip ≢ 0 → im.flip ≡ im.gray → (channels (st.cell im.flip) == 3) ≡ false
    pub empty : st.cell 0 ≡ cv.empty_mat

  module _ (laws : SharingLaws) where
    reused_colors :
        (st : Store Mat) (m : Mat) {old : Mat} (a : ℕ) (st' : Store Mat)
        → st'.cell a ≡ m
        → channels old ≡ channels m
        → (channels old == 3) ≡ false
        → (channels (st'.cell a) == 3) ≡ false
    reused_colors st m a st' holds again gray = cc

    pub flip_put-Apart :
        (im : Images) (st : Store Mat) (m : Mat) (res : ℕ × Store Mat)
        → Apart im st
        → Created reuses st im.flip m res
        → Apart (record im { flip = res.0 }) res.1
    flip_put-Apart im st m res h c = record {
      some_next = ground arith;
      flip_old = c.old;
      gray_old = ground arith;
      thresh_old = ground arith;
      thresh_flip = λ filled same. h.thresh_flip filled (c.reused im.thresh h.thresh_old same).0;
      thresh_gray = h.thresh_gray;
      colored = λ filled same.
          let (was, again) = c.reused im.gray h.gray_old (sym same) in
          reused_colors st m res.0 res.1 c.holds (laws.same_channels _ _ again) (
            ap (λ a. channels (st.cell a) == 3) was
            ∙ h.colored (λ e. filled (same ∙ was ∙ e)) (sym was));
      empty = c.others 0 h.some_next (λ e. c.filled (sym e)) ∙ h.empty;
    }

    apart_colors : {b : Bool} → b ≡ true → b ≡ false → ⊥
    apart_colors e e' = cc

    pub gray_put-Apart :
        (im : Images) (st : Store Mat) (m : Mat) (res : ℕ × Store Mat)
        → Apart im st
        → (channels (st.cell im.flip) == 3) ≡ true
        → im.flip ≢ 0
        → Created reuses st im.gray m res
        → Apart (record im { gray = res.0 }) res.1 × (res.1.cell im.flip ≡ st.cell im.flip)
    gray_put-Apart im st m res h color filled c =
        let other = λ (e : im.flip ≡ res.0).
          apart_colors color (h.colored filled (c.reused im.flip h.flip_old e).0) in
        let same = c.others im.flip h.flip_old other in
        (
          record {
            some_next = ground arith;
            flip_old = ground arith;
            gray_old = c.old;
            thresh_old = ground arith;
            thresh_flip = h.thresh_flip;
            thresh_gray = λ filled_thresh e.
                h.thresh_gray filled_thresh (c.reused im.thresh h.thresh_old e).0;
            colored = λ _ e. absurd (other e);
            empty = c.others 0 h.some_next (λ e. c.filled (sym e)) ∙ h.empty;
          },
          same,
        )

    pub thresh_put-Apart :
        (im : Images) (st : Store Mat) (m : Mat) (res : ℕ × Store Mat)
        → Apart im st
        → im.flip ≢ 0
        → im.gray ≢ 0
        → Created reuses st im.thresh m res
        → Apart (record im { thresh = res.0 }) res.1 × (res.1.cell im.flip ≡ st.cell im.flip)
    thresh_put-Apart im st m res h flip_filled gray_filled c =
        let other = λ (e : im.flip ≡ res.0).
          let was = (c.reused im.flip h.flip_old e).0 in
          h.thresh_flip (λ x. flip_filled (was ∙ x)) (sym was) in
        let other_gray = λ (e : im.gray ≡ res.0).
          let was = (c.reused im.gray h.gray_old e).0 in
          h.thresh_gray (λ x. gray_filled (was ∙ x)) (sym was) in
        let same = c.others im.flip h.flip_old other in
        (
          record {
            some_next = ground arith;
            flip_old = ground arith;
            gray_old = ground arith;
            thresh_old = c.old;
            thresh_flip = λ _ e. other (sym e);
            thresh_gray = λ _ e. other_gray (sym e);
            colored = λ filled e. ap (λ n. channels n == 3) same ∙ h.colored filled e;
            empty = c.others 0 h.some_next (λ e. c.filled (sym e)) ∙ h.empty;
          },
          same,
        )

    pub marked-Apart :
        (im : Images) (st : Store Mat) (m : Mat)
        → Apart im st
        → im.thresh ≢ 0
        → im.flip ≢ 0
        → Apart im (write reuses st im.thresh m)
          × ((write reuses st im.thresh m).cell im.flip ≡ st.cell im.flip)
    unfolding write
    marked-Apart im st m h filled flip_filled =
        let same = cell-write_else reuses st im.thresh m in
        let flip = same im.flip (λ e. h.thresh_flip filled (sym e)) in
        (
          record {
            some_next = h.some_next;
            flip_old = h.flip_old;
            gray_old = h.gray_old;
            thresh_old = h.thresh_old;
            thresh_flip = h.thresh_flip;
            thresh_gray = h.thresh_gray;
            colored = λ x e. ap (λ n. channels n == 3) flip ∙ h.colored x e;
            empty = same 0 (λ e. filled (sym e)) ∙ h.empty;
          },
          flip,
        )

    pub drawn-Apart :
        (im : Images) (st : Store Mat) (m : Mat)
        → Apart im st
        → im.flip ≢ 0
        → channels m ≡ channels (st.cell im.flip)
        → Apart (record im { display = im.flip }) (write reuses st im.flip m)
    unfolding write
    drawn-Apart im st m h filled same = record {
      some_next = h.some_next;
      flip_old = h.flip_old;
      gray_old = h.gray_old;
      thresh_old = h.thresh_old;
      thresh_flip = h.thresh_flip;
      thresh_gray = h.thresh_gray;
      colored = λ x e.
          ap (λ n. channels n == 3) (cell-write reuses st im.flip m)
          ∙ ap (λ c. c == 3) same
          ∙ h.colored x e;
      empty = cell-write_else reuses st im.flip m 0 (λ e. filled (sym e)) ∙ h.empty;
    }
