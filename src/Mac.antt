-- ===== src/Mac.antt =====
-- xtrack-mac: the port of the program. Most of its code is that of the directory xtrack, and here each of
-- these functions is the definition that models it there, under the same name. What differs is written
-- out: the sockets and the search for files are not there, and the size of the frame is the one that is
-- asked for.
pub mod Names
pub mod Common
pub mod Tuio
pub mod Recorder
pub mod Loop
pub mod Rounds
pub mod Safety
