-- ===== src/Tuio.antt =====
-- xtrack/tuio.cpp and tuio.h: one TUIO bundle is sent over UDP for each frame. WOscLib and the sockets
-- are parameters.
pub mod Wosclib
pub mod Frame
pub mod Sequence
pub mod Observed
use xtrack.Prelude.{
  ℕ, zero, suc, ◌+◌, ◌%◌, ◌^◌, ◌-◌, Bool, not, ◌||◌, true, false, List, [], ◌∷◌, ltb, ◌==◌,
  if◌then◌else◌, take, leb_ℤ, ℤ, pos, negsuc, next_int, Outcome, ok, raise, thrown, ◌>>=◌,
}
use xtrack.Text.{Text, codes}
use xtrack.Parameters.{Parameters, int_param, string_param}
use xtrack.Parameters.Names.{param_address, default_address, param_port, default_port}
use xtrack.Fiducials.{max_fiducials}
use xtrack.Fiducials.Tracked.{TrackedFiducial}
use xtrack.Tuio.Wosclib.{Wosc, Sockets}

abbrev pub osc_path : Text
osc_path = codes "/tuio/2Dobj"

pub record TuioServer : Type 0 where
  pub ipaddr : Text
  pub port : ℕ  -- unsigned short
  pub fseq : ℤ
  pub sock : ℤ

-- The conversion of an int to an unsigned short.
unfoldable pub to_unsigned_short : ℤ → ℕ
to_unsigned_short (pos n) = n % 2 ^ 16
to_unsigned_short (negsuc n) = 2 ^ 16 - 1 - n % 2 ^ 16

abbrev pub is_zero : ℤ → Bool
is_zero (pos n) = n == 0
is_zero (negsuc n) = false

-- INVALID_SOCKET is -1 as an int.
abbrev pub is_invalid : ℤ → Bool
is_invalid (pos n) = false
is_invalid (negsuc n) = n == 0

unfoldable pub open_server : Sockets → Parameters → Outcome TuioServer
unfolding int_param string_param to_unsigned_short
open_server net ps = do
  let ipaddr = string_param ps param_address default_address
  port ← int_param ps param_port default_port
  let sock = net.socket
  if not (is_zero net.startup) || is_invalid sock
      then raise (thrown 1)
      else ok (record { ipaddr = ipaddr; port = to_unsigned_short port; fseq = pos 0; sock = sock })

-- What the destructor calls: `closesocket` and `WSACleanup`.
pub data Closing : Type 0 where
  closed : ℤ → Closing
  cleaned_up : Closing

unfoldable pub close_server : TuioServer → List Closing
close_server server =
    if leb_ℤ (pos 0) server.sock then closed server.sock ∷ cleaned_up ∷ [] else cleaned_up ∷ []

-- What `sendto` is given: the socket, the address, and the bytes of the bundle.
pub record Datagram : Type 0 where
  pub sock : ℤ
  pub address : Text
  pub port : ℕ
  pub payload : Text

module _ {F D : Type 0} (osc : Wosc F) where
  open osc use {
    Message, Bundle, new_message, add_text, add_int, add_float, new_bundle, add_message, get_buffer,
  }

  -- The loop of the alive message, from the index `i` on.
  unfoldable pub add_alive : ℕ → List (TrackedFiducial F D) → Message → Message
  add_alive i [] msg = msg
  add_alive i (fid ∷ fids) msg =
      add_alive (i + 1) fids (if fid.is_tracked then add_int msg (pos i) else msg)

  unfoldable pub set_message : ℕ → TrackedFiducial F D → Message
  set_message i fid =
      add_float
        (add_float
          (add_float
            (add_float
              (add_float
                (add_float
                  (add_float
                    (add_float
                      (add_int (add_int (add_text (new_message osc_path) (codes "set")) (pos i))
                        (pos i))
                      fid.x)
                    fid.y)
                  fid.a)
                fid.xspeed)
              fid.yspeed)
            fid.aspeed)
          fid.xyacc)
        fid.aacc

  -- The loop of the set messages, from the index `i` on.
  unfoldable pub add_sets : ℕ → List (TrackedFiducial F D) → Bundle → Bundle
  add_sets i [] bundle = bundle
  add_sets i (fid ∷ fids) bundle =
      add_sets (i + 1) fids
        (if fid.is_tracked then add_message bundle (set_message i fid) else bundle)

  unfoldable pub send_message : TuioServer → List (TrackedFiducial F D) → TuioServer × Datagram
  send_message server fiducials =
      let table = take max_fiducials fiducials in
      let alive = add_alive 0 table (add_text (new_message osc_path) (codes "alive")) in
      let with_sets = add_sets 0 table (add_message new_bundle alive) in
      let seq = add_int (add_text (new_message osc_path) (codes "fseq")) server.fseq in
      let bundle = add_message with_sets seq in
      (
        record server { fseq = next_int server.fseq },
        record {
          sock = server.sock;
          address = server.ipaddr;
          port = server.port;
          payload = get_buffer bundle;
        },
      )

  -- The calls of `process`, one for each frame.
  unfoldable pub send_all :
      TuioServer → List (List (TrackedFiducial F D)) → TuioServer × List Datagram
  send_all server [] = (server, [])
  send_all server (fiducials ∷ frames) =
      let (server', datagram) = send_message server fiducials in
      let (last, datagrams) = send_all server' frames in (last, datagram ∷ datagrams)
