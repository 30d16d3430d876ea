-- ===== src/Lib.antt =====
-- A verification library of the educational Ethereum chain in src/ethereum (Python). Paths below are
-- from the repository's root.
--
-- The parts of the program and how they interact. src/ethereum/encoding/rlp.py serialises contract
-- addresses, transactions and block headers. src/ethereum/state keeps the accounts: `WorldState` maps
-- an address to its nonce, balance, code and storage. src/ethereum/evm is the stack machine: a
-- `Memory`, tables of opcodes and gas costs, and `EVM`, whose CREATE and CALL start further machines
-- on the same world state. src/ethereum/core validates a transaction and applies it to the world
-- state; src/ethereum/chain collects blocks of transactions. src/ethereum/contracts has two contracts
-- as bytecode, with the functions that build their calldata; the scripts in scenarios/ deploy and call
-- them.
--
-- Which file models which part:
--   Prelude   the shared names: lists, Booleans, dictionaries in Python's insertion order, Option.
--   Bytes     `int.from_bytes`, `int.to_bytes`, `int.bit_length` and slices of byte strings.
--   Rlp       encoding/rlp.py. Encode: `int_to_rlp_bytes`, `rlp_encode`, `_encode_string`,
--             `_encode_list`; Decode: `rlp_decode`, `_decode_item`, `_decode_list`.
--   Memory    evm/memory.py. Defs: `_expand_to`, `load`, `store`, `store8`, `read_range`, `write_range`.
--   World     state/account.py and state/world_state.py. Defs: `Account` and the methods of
--             `WorldState`, as functions from a state to the next; a ValueError is `none`. Root and
--             Order: `state_root_placeholder`, with Python's `sorted` on addresses.
--   Evm       evm/vm.py with its tables. State: the fields of `EVM` (the record Frame), its errors, the
--             stack; Gas: opcodes.py and gas.py; Jumpdests: `_find_jumpdests`; Handlers: the `_op_`
--             methods but two; Calls: `_op_create`, `_op_call` and core/address.py; Execute:
--             `_dispatch` and `execute`.
--   Transaction  transactions/transaction.py. Defs: `Transaction`, `signing_hash`, `sign_transaction`,
--             `recover_sender`.
--   Core      core/tx_validator.py, core/exceptions.py (Validator) and core/state_transition.py (Apply):
--             `validate_transaction`, `apply_transaction` and the three `_execute_` functions.
--   Chain     chain/block.py and chain/blockchain.py. Defs: `block_hash`, `create_block` and the methods
--             of `Blockchain`.
--   Contracts  contracts/abi.py (Abi), contracts/counter.py and contracts/token.py (Defs), and
--             `build_init_code` of the scenarios (Init). CounterRefines and Ledger say what the two
--             contracts promise, as a step on a number and on a function from accounts to balances;
--             Replay makes a sequence of calls, each on what the ones before it left.
--   Scenarios  scenarios/01_eth_transfer.py (Transfer) and scenarios/02_counter.py (Counter): `main`, less
--             what it prints.
-- The other files hold the lemmas about what their folder's parent defines; Tests hold runs on
-- concrete inputs.
--
-- How a program of the machine is followed. Evm/Trace says that from a frame the loop ends in a result,
-- on any fuel that is enough for the frame's gas; Evm/Rules, Evm/Effects and Evm/Halts have a rule for
-- each opcode that the contracts use, from the frame after the instruction to the one before it. A
-- proof about bytecode is the chain of the rules of its instructions, for any storage, calldata and gas.
-- Evm/Completes, Core/Call and Core/Create take what such a chain gives to the result of a transaction.
--
-- State and sharing. A handler is a function from a frame to a result and the next frame, so that a
-- raise keeps what was written before it. The world state is one Python object that the nested
-- machines share: a frame holds the current one, a child starts with its caller's, and the caller
-- goes on with what the child left, whatever the outcome. Storage is a dictionary of its own in each
-- frame, copied from the account when the machine starts and written back when it succeeds.
--
-- Bounds and fuel. Words are natural numbers; the machine's arithmetic writes `% 2 ^ 256` where the
-- source does. The RLP decoder runs on 3 * len(data) + 3 units of fuel and the loop of `execute` on
-- the fuel it is given, with one unit for each instruction, those of nested machines included;
-- Rlp/Total and Evm/Fuel show that the first, and two more units than there is gas, are enough.
-- `Host.memory_limit` is the largest byte array that Python can allocate: past it, memory raises.
--
-- `apply_transaction` runs the machine on two more units than the transaction has gas.
--
-- What comes from outside the repository: `keccak256` (eth_hash) is a field of `Host` and of `EthKeys`.
-- A theorem that needs it assumes that a hash has 32 bytes, that it does not collide on two given
-- inputs, or what the hash of a contract's signature starts with. Signing and recovery (eth_keys) are
-- fields of `EthKeys`, of which a theorem that needs it assumes that recovery inverts signing. What is
-- not modelled: Python's limit on nested calls, crypto/keys.py (eth_keys), what the scenarios print, and
-- the `main` of scenarios/03_token.py.
pub mod Prelude
pub mod Bytes
pub mod Rlp
pub mod Memory
pub mod World
pub mod Evm
pub mod Transaction
pub mod Core
pub mod Chain
pub mod Contracts
pub mod Scenarios
