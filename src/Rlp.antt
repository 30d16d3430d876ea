-- ===== src/Rlp.antt =====
-- encoding/rlp.py: the Recursive Length Prefix encoding and its decoder.
mod Encode
mod Decode
pub mod Prefix
pub mod Offsets
pub mod Lengths
pub mod RoundTrip
pub mod Total
pub mod Ints
mod Tests
unfoldable pub use Encode.*
unfoldable pub use Decode.*
