-- ===== src/Programs.antt =====
-- The example programs: pingPongServer.cc, pingPongClient.cc and some of the test programs, as
-- clients of the library. Their output and the arguments of `main` are outside.
pub mod PingPong
pub mod Echo
pub mod Client
pub mod Counts
pub mod Chargen
pub mod TwoMessages
pub mod ThreadSum
mod Tests
