-- ===== src/Parameters/Laws.antt =====
-- The parameter map and its accessors.
use xtrack.Prelude.{◌≡◌, ◌≢◌, refl, some, [], ◌∷◌, All, arith, if◌then◌else◌}
use xtrack.Text.{Text, text_eq}
use xtrack.Text.Search.{text_eq_iff}
use xtrack.Parameters.{Parameters, find, put}

-- A lookup after a write.
pub find-put :
    (ps : Parameters) (k v j : Text)
    → find (put ps k v) j ≡ (if text_eq k j then some v else find ps j)
unfolding find put
find-put [] k v j = refl
find-put ((i, w) ∷ ps) k v j =
    ground (arith, text_eq_iff k j, text_eq_iff i k, text_eq_iff i j, find-put ps k v j)

pub find-put_self : (ps : Parameters) (k v : Text) → find (put ps k v) k ≡ some v
find-put_self ps k v = ground (arith, find-put ps k v k, text_eq_iff k k)

pub find-put_ne : (ps : Parameters) (k v j : Text) → k ≢ j → find (put ps k v) j ≡ find ps j
find-put_ne ps k v j h = ground (arith, find-put ps k v j, text_eq_iff k j)

-- No key and no value is empty.
abbrev pub HasNoEmpty : Parameters → Type 0
HasNoEmpty = All (λ p. (p.0 ≢ []) × (p.1 ≢ []))

pub put-HasNoEmpty :
    (ps : Parameters) (k v : Text) → k ≢ [] → v ≢ [] → HasNoEmpty ps → HasNoEmpty (put ps k v)
unfolding put
put-HasNoEmpty [] k v hk hv h = ((hk, hv), tt)
put-HasNoEmpty ((i, w) ∷ ps) k v hk hv h = ground (arith, put-HasNoEmpty ps k v hk hv h.1)

pub find_ne_nil : (ps : Parameters) (k v : Text) → HasNoEmpty ps → find ps k ≡ some v → v ≢ []
unfolding find
find_ne_nil [] k v h e = cc
find_ne_nil ((i, w) ∷ ps) k v h e = ground (arith, find_ne_nil ps k v h.1)
