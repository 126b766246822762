-- ===== src/Receipt/Coverage.antt =====
-- shard/shard/receipt.py: `verify_coverage`, the check of a job's set of receipts.
use mathlib.Core.List.{dec_mem}
use shard_glm_image.Base.{
  String, ite, Option, none, some, List, [], ◌∷◌, Bool, true, false, ℕ, text_discrete, ℕ_discrete,
  dec_lt, dec_le, leb,
}
use shard_glm_image.Base.Int.{ℤ, pos, negsuc, ℤ_discrete}
use shard_glm_image.Base.Sort.{sort_by}
use shard_glm_image.Receipt.Dict.{
  Value, text, int, flag, Dict, stale_nonce, outside_model, zero_work, duplicate_signer,
  unassigned_signer, wrong_block, missing_signer, coverage_broken, coverage_short, chain_break,
  Result, ok, err, ◌>>=◌, ◌>>◌, require, reject, Value-discrete, Found-discrete, get, item, as_int,
}
use shard_glm_image.Receipt.Signing.{Crypto, verify_receipt}

-- The arguments of `verify_coverage` beside the receipts.
pub record Terms : Type 0 where
  pub layer_count : ℕ
  pub expected_by_signer : Option (List (String × ℤ × ℤ))
  pub expected_nonce : Option String
  pub check_chain : Bool

-- An entry of `entries`, with the signer that the loop added to `seen_pubkeys`.
pub record Entry : Type 0 where
  pub pubkey : String
  pub lo : ℕ
  pub hi : ℕ
  pub receipt : Dict

unfoldable pub check_nonce : Option String → Dict → Result (Unit {0})
check_nonce none r = ok tt
check_nonce (some nonce) r =
    require (Found-discrete (get r "nonce") (some (text nonce))) stale_nonce

-- `0 <= lo`, which is tested before `hi` is.
unfoldable pub check_start : ℤ → Result (Unit {0})
check_start (pos lo) = ok tt
check_start (negsuc n) = err outside_model

-- `lo < hi <= layer_count`, and the two numbers.
unfoldable pub check_block : ℕ → ℤ → ℤ → Result (ℕ × ℕ)
check_block layer_count (pos lo) (pos hi) = do
  require (dec_lt lo hi) outside_model
  require (dec_le hi layer_count) outside_model
  ok (lo, hi)
check_block layer_count lo hi = err outside_model

-- `isinstance(n_chunks, int) and n_chunks > 0`
unfoldable pub check_work : Option Value → Result (Unit {0})
check_work (some (int (pos (ℕ.suc n)))) = ok tt
check_work (some (flag true)) = ok tt
check_work _ = err zero_work

unfoldable pub assigned : List (String × ℤ × ℤ) → String → Option (ℤ × ℤ)
assigned [] signer = none
assigned ((k, lo, hi) ∷ m) signer = ite (text_discrete k signer) (some (lo, hi)) (assigned m signer)

-- `expected_by_signer.get(pub)`, and its comparison with the block of the receipt.
unfoldable pub check_assigned : Option (ℤ × ℤ) → ℕ → ℕ → Result (Unit {0})
check_assigned none lo hi = err unassigned_signer
check_assigned (some want) lo hi = do
  require (ℤ_discrete want.0 (pos lo)) wrong_block
  require (ℤ_discrete want.1 (pos hi)) wrong_block

unfoldable pub check_map : Option (List (String × ℤ × ℤ)) → String → ℕ → ℕ → Result (Unit {0})
check_map none signer lo hi = ok tt
check_map (some m) signer lo hi = check_assigned (assigned m signer) lo hi

module _ (c : Crypto) (t : Terms) where
  -- The body of the loop over the receipts; `seen` is `seen_pubkeys`.
  unfoldable pub check_receipt : List String → Dict → Result Entry
  check_receipt seen r = do
    signer ← verify_receipt c r none
    check_nonce t.expected_nonce r
    layer_start ← item r "layer_start"
    layer_end ← item r "layer_end"
    start ← as_int layer_start
    check_start start
    end ← as_int layer_end
    (lo, hi) ← check_block t.layer_count start end
    check_work (get r "n_chunks")
    reject (dec_mem text_discrete signer seen) duplicate_signer
    check_map t.expected_by_signer signer lo hi
    ok (record { pubkey = signer; lo = lo; hi = hi; receipt = r })

  -- The loop: the entries in the order of the receipts, and the signers seen.
  unfoldable pub collect : List String → List Dict → Result (List Entry × List String)
  collect seen [] = ok ([], seen)
  collect seen (r ∷ rs) = do
    e ← check_receipt seen r
    (es, seen') ← collect (e.pubkey ∷ seen) rs
    ok (e ∷ es, seen')

-- `missing = set(expected_by_signer) - seen_pubkeys; if missing: raise`
unfoldable pub check_served : List (String × ℤ × ℤ) → List String → Result (Unit {0})
check_served [] seen = ok tt
check_served ((k, _, _) ∷ m) seen = do
  require (dec_mem text_discrete k seen) missing_signer
  check_served m seen

unfoldable pub check_all_served : Option (List (String × ℤ × ℤ)) → List String → Result (Unit {0})
check_all_served none seen = ok tt
check_all_served (some m) seen = check_served m seen

abbrev pub le_entry : Entry → Entry → Bool
le_entry a b = leb a.lo b.lo

-- The loop with `cursor` over the sorted entries: the final cursor.
unfoldable pub tile : ℕ → List Entry → Result ℕ
tile cursor [] = ok cursor
tile cursor (e ∷ es) = do require (ℕ_discrete e.lo cursor) coverage_broken; tile e.hi es

-- Each `out_root` is the next `in_root`.
unfoldable pub link : List Entry → Result (Unit {0})
link [] = ok tt
link (a ∷ []) = ok tt
link (a ∷ b ∷ es) = do
  out_root ← item a.receipt "out_root"
  in_root ← item b.receipt "in_root"
  require (Value-discrete out_root in_root) chain_break
  link (b ∷ es)

unfoldable pub check_links : Bool → List Entry → Result (Unit {0})
check_links true es = link es
check_links false es = ok tt

-- The sorted entries of an accepted set.
unfoldable pub verify_coverage : Crypto → Terms → List Dict → Result (List Entry)
verify_coverage c t receipts = do
  (es, seen) ← collect c t [] receipts
  check_all_served t.expected_by_signer seen
  let sorted = sort_by le_entry es
  cursor ← tile 0 sorted
  require (ℕ_discrete cursor t.layer_count) coverage_short
  check_links t.check_chain sorted
  ok sorted
