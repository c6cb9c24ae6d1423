-- ===== src/Pipe.antt =====
-- libs/Transport/PipeProtocol.hpp and PipeProtocol.cpp: the binary framing between the UI and the
-- core process. `Wire` has the appending and reading primitives, `Protocol` the two envelopes.
pub mod Wire
pub mod Protocol
pub mod Examples
