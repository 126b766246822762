-- ===== src/Tests/Receipts.antt =====
-- A ring of two stages that is settled (shard/shard/receipt.py, shard/shard/verify.py).
use shard_glm_image.Base.{
  String, ◌≡◌, ◌≢◌, refl, none, some, List, [], ◌∷◌, ℕ, arith, true, false, inr, text_discrete,
  dec_lt, dec_le, ℕ_discrete,
}
use shard_glm_image.Base.Int.{ℤ, pos, ℤ_discrete}
use shard_glm_image.Base.Sort.{sort_by}
use mathlib.Core.List.{Mem, not-mem-nil}
use shard_glm_image.Receipt.Dict.{
  Dict, ok, err, get, put, without, item, as_int, text, wrong_block, stale_nonce, Value-discrete,
  Found-discrete, no_assignments,
}
use shard_glm_image.Receipt.Signing.{
  Crypto, IsSound, truthy, check_signer, decode, check_signature, canonical, verify_receipt,
  wire_receipt, new_signer, observe, body, finalize, nonce_entry,
}
use shard_glm_image.Receipt.Coverage.{
  Terms, Entry, check_nonce, check_start, check_block, check_work, assigned, check_assigned,
  check_map, check_receipt, collect, check_served, check_all_served, tile, link, check_links,
  verify_coverage,
}
use shard_glm_image.Receipt.Settle.{
  Settlement, stage_of, stages_of, stages, settle, settle_unpinned,
}
use shard_glm_image.Receipt.Settlement.{
  Settled, settle-Settled, paid_layers, paid_layers-settle, settle_unpinned-settle,
}
use shard_glm_image.Receipt.Roundtrip.{observe_all, tagged, sent, check_receipt-sent}

abbrev key_of : (k : String) → Dec (k ≡ "") → String
key_of k (yes e) = "?"
key_of k (no n) = k

-- A toy of a signature scheme: every signature is the text "s", and no other text verifies.
unfoldable pub toy : Crypto
unfolding text_discrete
toy = record {
  public = λ k. key_of k (text_discrete k "");
  sign = λ k m. "s";
  verify = λ p m s. elim (text_discrete s "s") [ yes e ↦ true | no n ↦ false ];
  sha256 = λ b. b;
  hexdigest = λ b. "h";
  dumps = λ d. [];
}

public-ne : (k : String) (d : Dec (k ≡ "")) → key_of k d ≢ ""
public-ne k (yes e) p = cc
public-ne k (no n) p = n p

pub toy-IsSound : IsSound toy
unfolding toy
toy-IsSound = record {
  sign-verify = λ k m. refl;
  public-ne = λ k. public-ne k (text_discrete k "");
  sign-ne = λ k m p. cc;
}

program : Unit {0}
unfolding toy text_discrete ℤ_discrete ℕ_discrete dec_lt dec_le Value-discrete Found-discrete get
    put without item as_int truthy check_signer decode check_signature canonical verify_receipt
    wire_receipt new_signer observe body finalize nonce_entry check_nonce check_start check_block
    check_work assigned check_assigned check_map check_receipt collect check_served check_all_served
    tile link check_links verify_coverage stage_of stages_of stages settle settle_unpinned
    observe_all tagged sent sort_by
program = tt

abbrev receipt : String → ℕ → ℕ → Dict
receipt key lo hi = wire_receipt (sent toy key "0" "swarm" "job" lo hi (some "n1") (([], []) ∷ []))

abbrev receipts : List Dict
receipts = receipt "b" 4 9 ∷ receipt "a" 0 4 ∷ []

abbrev assignments : List (String × ℤ × ℤ)
assignments = ("a", pos 0, pos 4) ∷ ("b", pos 4, pos 9) ∷ []

abbrev outcome : Settlement
outcome = record {
  pinned = true;
  layer_count = 9;
  stages =
      record { pubkey = text "a"; lo = pos 0; hi = pos 4; layers = pos 4 }
      ∷ record { pubkey = text "b"; lo = pos 4; hi = pos 9; layers = pos 5 }
      ∷ [];
}

settled : settle toy receipts 9 (some "n1") true assignments ≡ ok outcome
unfolding program
settled = refl

settle_stale : settle toy receipts 9 (some "n2") true assignments ≡ err stale_nonce
unfolding program
settle_stale = refl

settle_swapped :
    settle toy receipts 9 (some "n1") true (("b", pos 0, pos 4) ∷ ("a", pos 4, pos 9) ∷ [])
    ≡ err wrong_block
unfolding program
settle_swapped = refl

settle_unmapped : settle toy receipts 9 (some "n1") true [] ≡ err no_assignments
unfolding program
settle_unmapped = refl

settle-Settled_example : Settled toy receipts 9 (some "n1") true assignments outcome
settle-Settled_example = settle-Settled toy receipts 9 (some "n1") true assignments outcome settled

paid_layers-settle_example : paid_layers outcome.stages ≡ 9
paid_layers-settle_example =
    paid_layers-settle toy receipts 9 (some "n1") true assignments outcome settled

settle_unpinned-settle_example :
    settle_unpinned toy receipts 9 (some "n1") true ≡ ok (record outcome { pinned = false })
settle_unpinned-settle_example =
    settle_unpinned-settle toy receipts 9 (some "n1") true assignments outcome settled

abbrev terms : Terms
terms = record {
  layer_count = 9;
  expected_by_signer = none;
  expected_nonce = some "n1";
  check_chain = true;
}

not_seen : ¬ Mem {A = String} "k" []
not_seen = not-mem-nil

check_receipt-sent_example :
    (e : Entry) × (check_receipt toy terms []
        (wire_receipt (sent toy "k" "0" "swarm" "job" 4 9 (some "n1") (([], []) ∷ [])))
      ≡ ok e)
    × (e.pubkey ≡ toy.public "k")
    × (e.lo ≡ 4)
    × (e.hi ≡ 9)
unfolding program
check_receipt-sent_example =
    check_receipt-sent toy terms [] "k" "0" "swarm" "job" 4 9 (some "n1") (([], []) ∷ [])
      toy-IsSound (omega arith) (omega arith) (omega arith) (inr refl) not_seen refl
