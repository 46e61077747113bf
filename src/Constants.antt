-- ===== src/Constants.antt =====
-- bot/src/utils/constants.rs: addresses and bytes that the program fixes.
use sando_rs.Base.{ℕ, Bool, if◌then◌else◌}

abbrev pub weth_address : ℕ
weth_address = 0xC02aaA39b223FE8D0A0e5C4F27eAD9083C756Cc2

abbrev pub eth_dev : ℕ
eth_dev = 0x5AbFEc25f74Cd88437631a7731906932776356f9

abbrev pub uniswap_v3_quoter_address : ℕ
uniswap_v3_quoter_address = 0xb27308f9F90D607463bb33eA1BeBb41C27CE5AB6

abbrev pub end_of_multi_payload : ℕ
end_of_multi_payload = 37

abbrev pub prepare_stack_payload : ℕ
prepare_stack_payload = 94

pub sqrt_price_limit_x96 : Bool → ℕ
sqrt_price_limit_x96 is_zero_for_one =
    if is_zero_for_one then 0x1000276AD else 0xFFFD8963EFD1FC6A506488495D951D5263988D25
