-- ===== src/Mac/Tuio.antt =====
-- xtrack-mac/tuio.h and tuio.cpp: the messages are built and then not sent.
use xtrack.Prelude.{List, ℤ, pos, Outcome, ok, ◌>>=◌, take, next_int}
use xtrack.Text.{codes}
use xtrack.Parameters.{Parameters}
use xtrack.Fiducials.{max_fiducials}
use xtrack.Fiducials.Tracked.{TrackedFiducial}
use xtrack.Tuio
use xtrack.Tuio.{osc_path, to_unsigned_short, add_alive, add_sets}
use xtrack.Tuio.Wosclib.{Wosc}
use xtrack.Mac.Names.{param_address, default_address, param_port, default_port}
use xtrack.Mac.Common.{int_param, string_param}

abbrev pub TuioServer : Type 0
TuioServer = Tuio.TuioServer

-- `sock` is never set; `held` is what it happens to hold, and nothing reads it.
unfoldable pub open_server : ℤ → Parameters → Outcome TuioServer
unfolding to_unsigned_short
open_server held ps = do
  let ipaddr = string_param ps param_address default_address
  port ← int_param ps param_port default_port
  ok (record { ipaddr = ipaddr; port = to_unsigned_short port; fseq = pos 0; sock = held })

module _ {F D : Type 0} (osc : Wosc F) where
  open osc use {Bundle, new_message, add_text, add_int, new_bundle, add_message}

  -- The object, and the bundle that is given up.
  unfoldable pub send_message : TuioServer → List (TrackedFiducial F D) → TuioServer × Bundle
  send_message server fiducials =
      let table = take max_fiducials fiducials in
      let alive = add_alive osc 0 table (add_text (new_message osc_path) (codes "alive")) in
      let sets = add_sets osc 0 table (add_message new_bundle alive) in
      let seq = add_int (add_text (new_message osc_path) (codes "fseq")) server.fseq in
      (record server { fseq = next_int server.fseq }, add_message sets seq)
