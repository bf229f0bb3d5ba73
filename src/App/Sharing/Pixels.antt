-- ===== src/App/Sharing/Pixels.antt =====
-- The addresses of pixels: what is read at them behind a write, and behind a new image for a header.
use xtrack.Prelude.{
  ℕ, ◌<◌, ◌≤◌, ◌==◌, ◌&&◌, not, ◌≡◌, ◌≢◌, Bool, true, inl, inr, Bool-cases, arith, ◌∙◌, sym, ap,
}
use xtrack.App.Sharing.{Store, write, alloc, create}

module _ {Mat : Type 0} (reuses : Mat → Mat → Bool) where
  pub cell-write : (st : Store Mat) (a : ℕ) (m : Mat) → (write reuses st a m).cell a ≡ m
  unfolding write
  cell-write st a m = ground arith

  pub cell-write_else :
      (st : Store Mat) (a : ℕ) (m : Mat) (b : ℕ) → b ≢ a → (write reuses st a m).cell b ≡ st.cell b
  unfolding write
  cell-write_else st a m b other = ground arith

  -- An image is put at an address: at that of the header, which may be reused, or at a new one. All other
  -- pixels stay.
  pub record Created (st : Store Mat) (a : ℕ) (m : Mat) (res : ℕ × Store Mat) : Type 0 where
    pub holds : res.1.cell res.0 ≡ m
    pub others : (b : ℕ) → b < st.next → b ≢ res.0 → res.1.cell b ≡ st.cell b
    pub grows : st.next ≤ res.1.next
    pub old : res.0 < res.1.next
    pub filled : res.0 ≢ 0
    pub reused : (b : ℕ) → b < st.next → b ≡ res.0 → (b ≡ a) × (reuses (st.cell b) m ≡ true)

  pub alloc-Created :
      (st : Store Mat) (a : ℕ) (m : Mat) → 0 < st.next → Created st a m (alloc reuses st m)
  unfolding alloc write
  alloc-Created st a m some_next = record {
    holds = cell-write st st.next m;
    others = λ b was other. cell-write_else st st.next m b other;
    grows = ground arith;
    old = ground arith;
    filled = λ e. ground arith;
    reused = λ b was e. absurd (ground arith);
  }

  reused-Created :
      (st : Store Mat) (a : ℕ) (m : Mat)
      → a < st.next
      → (not (a == 0) && reuses (st.cell a) m) ≡ true
      → Created st a m (a, write reuses st a m)
  unfolding write
  reused-Created st a m was e = record {
    holds = cell-write st a m;
    others = λ b _ other. cell-write_else st a m b other;
    grows = ground arith;
    old = was;
    filled = λ x. ground arith;
    reused = λ b _ x. (x, rw x (ground arith));
  }

  pub create-Created :
      (st : Store Mat) (a : ℕ) (m : Mat)
      → 0 < st.next
      → a < st.next
      → Created st a m (create reuses st a m)
  unfolding create
  create-Created st a m some_next was = elim (Bool-cases (not (a == 0) && reuses (st.cell a) m)) [
    | inl e ↦ rw e (reused-Created st a m was e)
    | inr e ↦ rw e (alloc-Created st a m some_next)
  ]

  -- A new image that no header of the loop names, before the image for a header.
  pub after-Created :
      (st : Store Mat) (n : Mat) (a : ℕ) (m : Mat) (res : ℕ × Store Mat)
      → Created (alloc reuses st n).1 a m res
      → Created st a m res
  unfolding alloc write
  after-Created st n a m res c =
      let same =
        λ (b : ℕ) (was : b < st.next). cell-write_else st st.next n b (λ e. ground arith) in
      record {
        holds = c.holds;
        others = λ b was other. c.others b (ground arith) other ∙ same b was;
        grows = ground arith;
        old = c.old;
        filled = c.filled;
        reused = λ b was e.
            let (eq, again) = c.reused b (ground arith) e in
            (eq, ap (λ x. reuses x m) (sym (same b was)) ∙ again);
      }
