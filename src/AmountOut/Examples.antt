-- ===== src/AmountOut/Examples.antt =====
-- The theorem on the amount out at concrete reserves.
use sando_rs.Base.{ℕ, ◌≤◌, ◌<◌, ◌≡◌, val, ok, arith}
use sando_rs.AmountOut.{get_amount_out_evm_v2}
use sando_rs.AmountOut.Product.{KeepsProduct, get_amount_out_evm_v2-product}

get_amount_out_evm_v2-product_example :
    (out : ℕ) × (get_amount_out_evm_v2 {E = ℕ} (ok (5000, 8000)) 700 9 4 ≡ val (ok out))
    × (9 < 4 → KeepsProduct 700 5000 8000 out)
    × (4 ≤ 9 → KeepsProduct 700 8000 5000 out)
get_amount_out_evm_v2-product_example =
    get_amount_out_evm_v2-product 5000 8000 700 9 4 (omega arith) (omega arith) (omega arith)
