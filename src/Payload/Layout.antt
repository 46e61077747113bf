-- ===== src/Payload/Layout.antt =====
-- How the sandwich contract (contract/src/sandwich.huff) reads the call data: fields of big-endian
-- bytes at fixed places, an amount stored into memory in front of zeros, and the call value in
-- units of 2 ^ 32 wei.
use sando_rs.Base.{ℕ, ◌+◌, ◌-◌, ◌*◌, ◌/◌, ◌^◌, Bool, List, take, drop, if◌then◌else◌}
use sando_rs.Base.Bytes.{be_value}

-- The number in the `width` bytes from `start` on.
abbrev pub field : (start width : ℕ) → List ℕ → ℕ
field start width payload = be_value (take width (drop start payload))

-- `mstore` of a word that begins with `width` bytes of `value`, zeros behind them, at `mem_offset`:
-- the number that is then in the 32-byte word that ends at `word_end`, the bytes lying within it.
abbrev pub stored : (word_end width mem_offset value : ℕ) → ℕ
stored word_end width mem_offset value = value * 256 ^ (word_end - (mem_offset + width))

-- Where the argument words of `swap(amount0Out, amount1Out, to, data)` and of
-- `transfer(to, value)` end.
abbrev pub amount_out_end : (weth_is_token0 : Bool) → ℕ
amount_out_end weth_is_token0 = if weth_is_token0 then 68 else 36

abbrev pub transfer_value_end : ℕ
transfer_value_end = 68

-- The word that begins with `width` bytes of `value`, shifted right by `shift` bits.
abbrev pub shifted : (width shift value : ℕ) → ℕ
shifted width shift value = value * 256 ^ (32 - width) / 2 ^ shift

-- `callvalue 0x20 shl`: the amount of weth that a call value stands for.
abbrev pub weth_amount : ℕ → ℕ
weth_amount call_value = call_value * 2 ^ 32

-- Where `v3_input0` and `v3_input1` read the word of the pool's key hash.
abbrev pub input_hash_start : ℕ
input_hash_start = 27
