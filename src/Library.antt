-- ===== src/Library.antt =====
-- Functions of the Ethereum libraries that the bot calls: ABI encoding and the Keccak-256 hash.
use sando_rs.Base.{ℕ, List}

-- The two kinds of `ethers::abi::Token` that the bot encodes.
pub data AbiToken : Type 0 where
  address : ℕ → AbiToken
  uint : ℕ → AbiToken

pub record Hashing : Type 0 where
  pub abi_encode : List AbiToken → List ℕ
  pub keccak256 : List ℕ → List ℕ
