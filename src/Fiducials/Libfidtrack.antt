-- ===== src/Fiducials/Libfidtrack.antt =====
-- The interface of libfidtrack that xtrack/fiducials.cpp calls.
use xtrack.Prelude.{ℕ, List, ℤ}

-- One raw fiducial, as find_fiducialsX stores it.
pub record FiducialX (F : Type 0) : Type 0 where
  pub id : ℤ
  pub x : F
  pub y : F
  pub angle : F

pub record ShortPoint : Type 0 where
  pub x : ℤ
  pub y : ℤ

-- The states of the library and its calls. `find_fiducials_x max tracker segmenter width height` gives
-- the raw fiducials that the call stores at the start of the buffer, and the states that it leaves.
pub record FidTrack (F : Type 0) : Type 1 where
  pub Image : Type 0
  pub columns : Image → ℕ
  pub rows : Image → ℕ
  pub TreeIdMap : Type 0
  pub Segmenter : Type 0
  pub FidtrackerX : Type 0
  pub initialize_treeidmap : TreeIdMap
  pub max_adjacencies : TreeIdMap → ℕ
  pub initialize_fidtracker : TreeIdMap → List ShortPoint → FidtrackerX
  pub initialize_segmenter : ℕ → ℕ → ℕ → Segmenter
  pub step_segmenter : Segmenter → Image → Segmenter
  pub find_fiducials_x :
      ℕ → FidtrackerX → Segmenter → ℕ → ℕ → List (FiducialX F) × FidtrackerX × Segmenter
