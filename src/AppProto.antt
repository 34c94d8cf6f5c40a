-- ===== src/AppProto.antt =====
-- The application protocol of ws_mqtt_proto/app_proto.c and app_proto.h: an ASCII header whose
-- fields end in `\1`, and a binary payload. This file has the parsed frame; `Build` is the writer
-- and `Parse` the reader.
pub mod Frame
pub mod Build
pub mod Parse
pub mod Encoding
mod Writes
pub mod Written
pub mod Scanning
pub mod RoundTrip
mod Rounds
pub mod Sound
pub mod Codes
mod Tests
