-- ===== src/Tuio/Wosclib.antt =====
-- The interfaces of WOscLib and of the sockets that xtrack/tuio.cpp calls.
use xtrack.Prelude.{ℤ}
use xtrack.Text.{Text}

-- A message and a bundle are built up by `Add`; `get_buffer` gives the bytes of a bundle.
pub record Wosc (F : Type 0) : Type 1 where
  pub Message : Type 0
  pub Bundle : Type 0
  pub new_message : Text → Message
  pub add_text : Message → Text → Message
  pub add_int : Message → ℤ → Message
  pub add_float : Message → F → Message
  pub new_bundle : Bundle
  pub add_message : Bundle → Message → Bundle
  pub get_buffer : Bundle → Text

-- The results of `WSAStartup` and of `socket`, as ints.
pub record Sockets : Type 0 where
  pub startup : ℤ
  pub socket : ℤ
