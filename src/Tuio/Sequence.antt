-- ===== src/Tuio/Sequence.antt =====
-- The frame numbers over a run of the program.
use mathlib.Core.Option
use native.Mathlib.Nat.{add-zero}
use xtrack.Prelude.{
  ℕ, zero, suc, ◌+◌, ◌<◌, ◌^◌, ◌≡◌, ◌∙◌, refl, ap, List, [], ◌∷◌, length, get_elem?, ℤ, next_int,
  next_int-pos, pos, arith,
}
use xtrack.Fiducials.Tracked.{TrackedFiducial}
use xtrack.Tuio.Wosclib.{Wosc}
use xtrack.Tuio.{TuioServer, Datagram, send_all}
use xtrack.Tuio.Frame.{bundle_of, frame_messages, send_message_frame}

module _ {F D : Type 0} (osc : Wosc F) where
  -- The datagram of a frame with a given number.
  abbrev pub numbered : TuioServer → ℤ → List (TrackedFiducial F D) → Datagram
  numbered server fseq fiducials = record {
    sock = server.sock;
    address = server.ipaddr;
    port = server.port;
    payload = osc.get_buffer (bundle_of osc (frame_messages fseq fiducials));
  }

  send_all_step :
      (server : TuioServer) (fiducials : List (TrackedFiducial F D))
      (frames : List (List (TrackedFiducial F D)))
      → (send_all osc server (fiducials ∷ frames)).1
        ≡ numbered server server.fseq fiducials
          ∷ (send_all osc (record server { fseq = next_int server.fseq }) frames).1
  unfolding send_all
  send_all_step server fiducials frames = rw (send_message_frame osc server fiducials)

  -- Over a run that starts at the frame number `n` and ends before the largest int, the datagram of
  -- the frame `k` carries the number n + k and the fiducials that are tracked in that frame; there is one
  -- datagram for each frame.
  pub send_all_numbers :
      (server : TuioServer) (frames : List (List (TrackedFiducial F D))) (n k : ℕ)
      → server.fseq ≡ pos n
      → n + length frames < 2 ^ 31
      → get_elem? (send_all osc server frames).1 k
        ≡ Option.map (numbered server (pos (n + k))) (get_elem? frames k)
  send_all_numbers server [] n k start fits = unfold send_all in refl
  send_all_numbers server (fiducials ∷ frames) n zero start fits =
      rw (send_all_step, start, add-zero)
  send_all_numbers server (fiducials ∷ frames) n (suc k) start fits =
      let next : TuioServer = record server { fseq = next_int server.fseq } in
      let e : n + 1 + k ≡ n + suc k = omega arith in
      rw send_all_step (
        send_all_numbers next frames (n + 1) k (ap next_int start ∙ next_int-pos n (omega arith))
          (omega arith)
        ∙ ap (λ m. Option.map (numbered server (pos m)) (get_elem? frames k)) e)
