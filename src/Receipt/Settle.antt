-- ===== src/Receipt/Settle.antt =====
-- shard/shard/verify.py: the settlement, pinned to the assignment map or for diagnostics.
use shard_glm_image.Base.{String, Option, none, some, List, [], ◌∷◌, Bool, true, false, ℕ}
use shard_glm_image.Base.Int.{ℤ, ◌-ℤ◌, lebℤ}
use shard_glm_image.Base.Sort.{sort_by}
use shard_glm_image.Receipt.Dict.{Value, Dict, no_assignments, Result, ok, err, ◌>>=◌, item, as_int}
use shard_glm_image.Receipt.Signing.{Crypto}
use shard_glm_image.Receipt.Coverage.{verify_coverage}

-- What one stage is paid for.
pub record Stage : Type 0 where
  pub pubkey : Value
  pub lo : ℤ
  pub hi : ℤ
  pub layers : ℤ

pub record Settlement : Type 0 where
  pub pinned : Bool
  pub layer_count : ℕ
  pub stages : List Stage

unfoldable pub stage_of : Dict → Result Stage
stage_of r = do
  pubkey ← item r "pubkey"
  layer_start ← item r "layer_start"
  layer_end ← item r "layer_end"
  lo ← as_int layer_start
  hi ← as_int layer_end
  ok (record { pubkey = pubkey; lo = lo; hi = hi; layers = hi -ℤ lo })

unfoldable pub stages_of : List Dict → Result (List Stage)
stages_of [] = ok []
stages_of (r ∷ rs) = do s ← stage_of r; ss ← stages_of rs; ok (s ∷ ss)

abbrev pub le_stage : Stage → Stage → Bool
le_stage a b = lebℤ a.lo b.lo

-- `_stages`
unfoldable pub stages : List Dict → Result (List Stage)
stages receipts = do ss ← stages_of receipts; ok (sort_by le_stage ss)

module _ (c : Crypto) (receipts : List Dict) (layer_count : ℕ) (expected_nonce : Option String)
    (check_chain : Bool) where
  unfoldable pub settle_unpinned : Result Settlement
  settle_unpinned = do
    checked ←
        verify_coverage c
          (record {
            layer_count = layer_count;
            expected_by_signer = none;
            expected_nonce = expected_nonce;
            check_chain = check_chain;
          })
          receipts
    ss ← stages receipts
    ok (record { pinned = false; layer_count = layer_count; stages = ss })

  unfoldable pub settle : List (String × ℤ × ℤ) → Result Settlement
  settle [] = err no_assignments
  settle (a ∷ assignments) = do
    checked ←
        verify_coverage c
          (record {
            layer_count = layer_count;
            expected_by_signer = some (a ∷ assignments);
            expected_nonce = expected_nonce;
            check_chain = check_chain;
          })
          receipts
    ss ← stages receipts
    ok (record { pinned = true; layer_count = layer_count; stages = ss })
