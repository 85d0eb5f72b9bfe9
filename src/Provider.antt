-- ===== src/Provider.antt =====
-- What the provider adapters do to the stream of an answer: crates/provider/src.
pub mod Filter
pub mod Scanning
pub mod Automaton
pub mod Starts
pub mod Walks
pub mod Chunks
pub mod Cutting
pub mod Blocks
pub mod Sse
pub mod Framing
pub mod Decoding
pub mod RoundTrip
pub mod Waiting
mod Tests
mod SseTests
