-- ===== src/Receipt/Checked.antt =====
-- What the loop of `verify_coverage` has established of each receipt (shard/shard/receipt.py).
use mathlib.Core.List.{Mem}
use shard_glm_image.Base.{
  String, ◌≡◌, refl, Option, none, some, List, [], ◌∷◌, ℕ, ◌<◌, ◌≤◌, ◌-◌, arith, map,
}
use shard_glm_image.Base.Int.{ℤ, pos}
use shard_glm_image.Receipt.Dict.{Value, text, Dict, ok, >>=-eq-ok, get, item}
use shard_glm_image.Receipt.Signing.{
  Crypto, verify_receipt, truthy, decode, check_signer, check_signature,
}
use shard_glm_image.Receipt.Coverage.{
  Terms, Entry, check_nonce, check_block, check_work, check_map, check_receipt, collect,
}
use shard_glm_image.Receipt.Settle.{Stage, stage_of, stages_of}

abbrev pub entry_stage : Entry → Stage
entry_stage e = record {
  pubkey = text e.pubkey;
  lo = pos e.lo;
  hi = pos e.hi;
  layers = pos (e.hi - e.lo);
}

truthy-text :
    (o : Option Value) (v : Value) {p : String}
    → truthy o ≡ ok v
    → decode v ≡ ok p
    → o ≡ some (text p)
unfolding truthy decode
truthy-text o v h d = ground arith

verify_receipt-pubkey :
    (c : Crypto) (r : Dict) {p : String}
    → verify_receipt c r none ≡ ok p
    → get r "pubkey" ≡ some (text p)
unfolding verify_receipt check_signer truthy decode check_signature
verify_receipt-pubkey c r h = ground arith

check_block-eq-ok :
    (n : ℕ) (a b : ℤ) {lo hi : ℕ}
    → check_block n a b ≡ ok (lo, hi)
    → (a ≡ pos lo) × (b ≡ pos hi) × (lo < hi) × (hi ≤ n)
unfolding check_block
check_block-eq-ok n a b h = ground arith

module _ (c : Crypto) (t : Terms) (seen : List String) (r : Dict) {e : Entry}
    (h : check_receipt c t seen r ≡ ok e) where
  check_receipt-verified : verify_receipt c r none ≡ ok e.pubkey
  unfolding check_receipt
  check_receipt-verified = ground arith

  check_receipt-fresh : check_nonce t.expected_nonce r ≡ ok tt
  unfolding check_receipt
  check_receipt-fresh = ground arith

  check_receipt-worked : check_work (get r "n_chunks") ≡ ok tt
  unfolding check_receipt
  check_receipt-worked = ground arith

  check_receipt-unseen : ¬ Mem e.pubkey seen
  unfolding check_receipt
  check_receipt-unseen = ground arith

  check_receipt-mapped : check_map t.expected_by_signer e.pubkey e.lo e.hi ≡ ok tt
  unfolding check_receipt
  check_receipt-mapped = ground arith

  check_receipt-same : e.receipt ≡ r
  unfolding check_receipt
  check_receipt-same = ground arith

  check_receipt-staged : stage_of r ≡ ok (entry_stage e)
  unfolding check_receipt stage_of check_block item
  check_receipt-staged = ground (arith, verify_receipt-pubkey c r check_receipt-verified)

  check_receipt-bounds : (e.lo < e.hi) × (e.hi ≤ t.layer_count)
  unfolding check_receipt check_block
  check_receipt-bounds = ground arith

-- The facts that `check_receipt` leaves behind.
pub record Checked (c : Crypto) (t : Terms) (seen : List String) (r : Dict) (e : Entry)
    : Type 0 where
  pub verified : verify_receipt c r none ≡ ok e.pubkey
  pub fresh : check_nonce t.expected_nonce r ≡ ok tt
  pub staged : stage_of r ≡ ok (entry_stage e)
  pub nonempty : e.lo < e.hi
  pub within : e.hi ≤ t.layer_count
  pub worked : check_work (get r "n_chunks") ≡ ok tt
  pub unseen : ¬ Mem e.pubkey seen
  pub mapped : check_map t.expected_by_signer e.pubkey e.lo e.hi ≡ ok tt
  pub same : e.receipt ≡ r

pub check_receipt-Checked :
    (c : Crypto) (t : Terms) (seen : List String) (r : Dict) {e : Entry}
    → check_receipt c t seen r ≡ ok e
    → Checked c t seen r e
check_receipt-Checked c t seen r h = record {
  verified = check_receipt-verified c t seen r h;
  fresh = check_receipt-fresh c t seen r h;
  staged = check_receipt-staged c t seen r h;
  nonempty = (check_receipt-bounds c t seen r h).0;
  within = (check_receipt-bounds c t seen r h).1;
  worked = check_receipt-worked c t seen r h;
  unseen = check_receipt-unseen c t seen r h;
  mapped = check_receipt-mapped c t seen r h;
  same = check_receipt-same c t seen r h;
}

-- The loop: every receipt is checked against the signers before it.
pub data Collected (c : Crypto) (t : Terms)
    : List String → List Dict → List Entry → List String → Type 0 where
  done : (seen : List String) → Collected c t seen [] [] seen
  more :
      {seen seen' : List String} {r : Dict} {rs : List Dict} {e : Entry} {es : List Entry}
      → Checked c t seen r e
      → Collected c t (e.pubkey ∷ seen) rs es seen'
      → Collected c t seen (r ∷ rs) (e ∷ es) seen'

pub collect-Collected :
    (c : Crypto) (t : Terms) (seen : List String) (rs : List Dict) (es : List Entry)
    (seen' : List String)
    → collect c t seen rs ≡ ok (es, seen')
    → Collected c t seen rs es seen'
unfolding collect
collect-Collected c t seen [] es seen' h =
    let e1 : es ≡ [] = ground arith in
    let e2 : seen' ≡ seen = ground arith in rw (e1, e2) (done seen)
collect-Collected c t seen (r ∷ rs) es seen' h =
    let (e, checked, h1) = >>=-eq-ok (check_receipt c t seen r) _ h in
    let (p, rest, h2) = >>=-eq-ok (collect c t (e.pubkey ∷ seen) rs) _ h1 in
    let e1 : es ≡ e ∷ p.0 = ground arith in
    let e2 : seen' ≡ p.1 = ground arith in
    rw (e1, e2)
      (more (check_receipt-Checked c t seen r checked)
        (collect-Collected c t (e.pubkey ∷ seen) rs p.0 p.1 rest))

pub Collected-stages :
    {c : Crypto} {t : Terms} {seen : List String} {rs : List Dict} {es : List Entry}
    {seen' : List String}
    → Collected c t seen rs es seen'
    → stages_of rs ≡ ok (map entry_stage es)
unfolding stages_of
Collected-stages (done seen) = refl
Collected-stages (more k l) = ground (arith, k.staged, Collected-stages l)
