-- ===== src/Bytes.antt =====
-- Byte strings and the conversions of Python's `int`: `from_bytes`, `to_bytes` and `bit_length`,
-- which encoding/rlp.py, evm/memory.py and evm/vm.py call.
mod Digits
mod Width
mod Window
unfoldable pub use Digits.*
unfoldable pub use Width.*
unfoldable pub use Window.*
