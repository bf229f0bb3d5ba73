-- ===== src/Fiducials/Dmap.antt =====
-- The map of the pixels that the constructor makes for libfidtrack.
use native.Mathlib.Nat.{zero-add}
use xtrack.Prelude.{
  ℕ, zero, suc, ◌+◌, ◌*◌, ◌<◌, ◌≤◌, ◌^◌, ◌≡◌, ◌∙◌, refl, ap, Option, some, List, [], ◌∷◌, ◌++◌,
  length, length-append, get_elem?, pos, arith,
}
use xtrack.Fiducials.{to_short, dmap_row, dmap_rows}
use xtrack.Fiducials.Libfidtrack.{ShortPoint}

to_short-small : (n : ℕ) → n < 2 ^ 15 → to_short n ≡ pos n
unfolding to_short
to_short-small n h = ground arith

length-dmap_row : (y x left : ℕ) → length (dmap_row y x left) ≡ left
unfolding dmap_row
length-dmap_row y x zero = refl
length-dmap_row y x (suc left) = ap suc (length-dmap_row y (x + 1) left)

get_elem?-dmap_row :
    (y x left i : ℕ)
    → i < left
    → get_elem? (dmap_row y x left) i ≡ some (record { x = to_short (x + i); y = to_short y })
unfolding dmap_row
get_elem?-dmap_row y x zero i h = absurd (omega arith)
get_elem?-dmap_row y x (suc left) zero h = ground arith
get_elem?-dmap_row y x (suc left) (suc i) h =
    get_elem?-dmap_row y (x + 1) left i (omega arith)
    ∙ ap (λ n. some (record { x = to_short n; y = to_short y })) (omega arith)

get_elem?-append_left {ℓ} :
    {A : Type ℓ} (xs ys : List A) (i : ℕ) → i < length xs → get_elem? (xs ++ ys) i ≡ get_elem? xs i
get_elem?-append_left [] ys i h = absurd (omega arith)
get_elem?-append_left (x ∷ xs) ys zero h = refl
get_elem?-append_left (x ∷ xs) ys (suc i) h = get_elem?-append_left xs ys i (omega arith)

get_elem?-append_right {ℓ} :
    {A : Type ℓ} (xs ys : List A) (i : ℕ) → get_elem? (xs ++ ys) (length xs + i) ≡ get_elem? ys i
get_elem?-append_right [] ys i = ap (get_elem? ys) (omega arith)
get_elem?-append_right (x ∷ xs) ys i =
    let e : suc (length xs) + i ≡ suc (length xs + i) = omega arith in
    ap (get_elem? (x ∷ (xs ++ ys))) e ∙ get_elem?-append_right xs ys i

length-dmap_rows : (width y left : ℕ) → length (dmap_rows width y left) ≡ left * width
unfolding dmap_rows
length-dmap_rows width y zero = grind arith
length-dmap_rows width y (suc left) =
    length-append (dmap_row y 0 width) (dmap_rows width (y + 1) left)
    ∙ rw (length-dmap_row, length-dmap_rows width (y + 1) left) (grind arith)

entry :
    {m m' n n' : ℕ}
    → m ≡ m'
    → n ≡ n'
    → ◌≡◌ {A = Option ShortPoint}
        (some (record { x = to_short m; y = to_short n }))
        (some (record { x = to_short m'; y = to_short n' }))
entry e e' = rw (e, e') refl

get_elem?-dmap_rows :
    (width y left x j : ℕ)
    → x < width
    → j < left
    → get_elem? (dmap_rows width y left) (j * width + x)
      ≡ some (record { x = to_short x; y = to_short (y + j) })
unfolding dmap_rows
get_elem?-dmap_rows width y zero x j hx hj = absurd (omega arith)
get_elem?-dmap_rows width y (suc left) x zero hx hj =
    let e : 0 * width + x ≡ x = grind arith in
    ap (get_elem? (dmap_row y 0 width ++ dmap_rows width (y + 1) left)) e
    ∙ get_elem?-append_left (dmap_row y 0 width) _ x (omega (arith, length-dmap_row y 0 width))
    ∙ get_elem?-dmap_row y 0 width x hx
    ∙ entry (omega arith) (omega arith)
get_elem?-dmap_rows width y (suc left) x (suc j) hx hj =
    let e : suc j * width + x ≡ length (dmap_row y 0 width) + (j * width + x) =
      rw length-dmap_row (grind arith) in
    ap (get_elem? (dmap_row y 0 width ++ dmap_rows width (y + 1) left)) e
    ∙ get_elem?-append_right (dmap_row y 0 width) (dmap_rows width (y + 1) left) (j * width + x)
    ∙ get_elem?-dmap_rows width (y + 1) left x j hx (omega arith)
    ∙ entry (omega arith) (omega arith)

-- The map has an entry for each pixel, row after row, and the entry of a pixel is the pixel itself, for
-- an image of at most 2^15 columns and rows.
pub dmap_rows_identity :
    (width height x y : ℕ)
    → width ≤ 2 ^ 15
    → height ≤ 2 ^ 15
    → x < width
    → y < height
    → (length (dmap_rows width 0 height) ≡ height * width)
      × (get_elem? (dmap_rows width 0 height) (y * width + x)
          ≡ some (record { x = pos x; y = pos y }))
dmap_rows_identity width height x y hw hh hx hy = (
  length-dmap_rows width 0 height,
  get_elem?-dmap_rows width 0 height x y hx hy
      ∙ rw (zero-add, to_short-small x (omega arith), to_short-small y (omega arith)) refl,
)
