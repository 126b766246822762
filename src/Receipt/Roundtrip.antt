-- ===== src/Receipt/Roundtrip.antt =====
-- A stage's own receipt reaches the verifier intact (shard/shard/receipt.py).
use shard_glm_image.Base.{
  String, ◌≡◌, refl, ap, length, Option, none, some, List, [], ◌∷◌, ◌≢◌, ℕ, ◌+◌, ◌<◌, ◌≤◌, ◌⊎◌,
  arith, text_discrete, true,
}
use shard_glm_image.Base.Int.{ℤ, pos}
use shard_glm_image.Receipt.Dict.{text, int, as_int, Dict, ok, get, put, without, item}
use shard_glm_image.Receipt.Coverage.{
  Terms, Entry, check_receipt, check_nonce, check_start, check_block, check_work, check_map,
}
use mathlib.Core.List.{Mem}
use mathlib.Core.Option
use shard_glm_image.Receipt.Signing.{
  Crypto, IsSound, schema, truthy, check_signer, decode, check_signature, canonical, verify_receipt,
  wire_receipt, ReceiptSigner, new_signer, observe, body, finalize, nonce_entry,
}

-- The chunks that a stage observes, in order.
unfoldable pub observe_all : Crypto → ReceiptSigner → List (List ℕ × List ℕ) → ReceiptSigner
observe_all c s [] = s
observe_all c s ((i, o) ∷ chunks) = observe_all c (observe c s i o) chunks

module _ (c : Crypto) where
  observe_all-meta :
      (s : ReceiptSigner) (chunks : List (List ℕ × List ℕ))
      → ((observe_all c s chunks).meta ≡ s.meta) × ((observe_all c s chunks).priv ≡ s.priv)
  unfolding observe_all observe
  observe_all-meta s [] = (refl, refl)
  observe_all-meta s ((i, o) ∷ chunks) = observe_all-meta (observe c s i o) chunks

  unfoldable pub tagged : String → Dict → Dict
  tagged stage receipt = ("stage", text stage) ∷ receipt

  -- The fields that a signed body starts from are those of `__init__`, whatever was observed.
  abbrev Starts : ReceiptSigner → String → String → ℤ → ℤ → Option String → Type 0
  Starts s swarm job lo hi n = s.meta ≡ (new_signer s.priv swarm job lo hi n).meta

  wire_receipt-tagged :
      (s : ReceiptSigner) (stage swarm job : String) (lo hi : ℤ) (n : Option String)
      → Starts s swarm job lo hi n
      → wire_receipt (tagged stage (finalize c s)) ≡ finalize c s
  unfolding wire_receipt tagged finalize body new_signer nonce_entry put without text_discrete
  wire_receipt-tagged s stage swarm job lo hi none e = rw e
  wire_receipt-tagged s stage swarm job lo hi (some x) e = rw e

  -- What a verifier reads in a finished receipt.
  record Finished (s : ReceiptSigner) (lo hi : ℤ) (n : Option String) : Type 0 where
    labelled : get (finalize c s) "schema" ≡ some schema
    signer : get (finalize c s) "pubkey" ≡ some (text (c.public s.priv))
    signature : get (finalize c s) "sig" ≡ some (text (c.sign s.priv (canonical c (finalize c s))))
    start : item (finalize c s) "layer_start" ≡ ok (int lo)
    end : item (finalize c s) "layer_end" ≡ ok (int hi)
    chunks : get (finalize c s) "n_chunks" ≡ some (int (pos s.n))
    nonce : get (finalize c s) "nonce" ≡ Option.map text n

  finalize-Finished :
      (s : ReceiptSigner) (swarm job : String) (lo hi : ℤ) (n : Option String)
      → Starts s swarm job lo hi n
      → Finished s lo hi n
  unfolding canonical finalize body new_signer nonce_entry put without get item text_discrete
  finalize-Finished s swarm job lo hi none e = record {
    labelled = rw e;
    signer = rw e;
    signature = rw e;
    start = rw e;
    end = rw e;
    chunks = rw e;
    nonce = rw e;
  }
  finalize-Finished s swarm job lo hi (some x) e = record {
    labelled = rw e;
    signer = rw e;
    signature = rw e;
    start = rw e;
    end = rw e;
    chunks = rw e;
    nonce = rw e;
  }

  verify_receipt-eq-ok :
      (r : Dict) (p g : String)
      → get r "schema" ≡ some schema
      → get r "pubkey" ≡ some (text p)
      → p ≢ ""
      → get r "sig" ≡ some (text g)
      → g ≢ ""
      → c.verify p (canonical c r) g ≡ true
      → verify_receipt c r none ≡ ok p
  unfolding verify_receipt truthy check_signer decode check_signature
  verify_receipt-eq-ok r p g labelled signer p_ne signature g_ne good = ground arith

  honest_check :
      (t : Terms) (seen : List String) (s : ReceiptSigner) (lo hi : ℕ) (n : Option String)
      → IsSound c
      → Finished s (pos lo) (pos hi) n
      → 0 < s.n
      → lo < hi
      → hi ≤ t.layer_count
      → (t.expected_nonce ≡ none) ⊎ (t.expected_nonce ≡ n)
      → ¬ Mem (c.public s.priv) seen
      → check_map t.expected_by_signer (c.public s.priv) lo hi ≡ ok tt
      → check_receipt c t seen (finalize c s)
        ≡ ok (record { pubkey = c.public s.priv; lo = lo; hi = hi; receipt = finalize c s })
  unfolding check_receipt check_nonce check_start check_block check_work as_int
  honest_check t seen s lo hi n v f worked nonempty within asked new mapped =
      let verified : verify_receipt c (finalize c s) none ≡ ok (c.public s.priv) =
        verify_receipt-eq-ok (finalize c s) (c.public s.priv)
          (c.sign s.priv (canonical c (finalize c s))) f.labelled f.signer (v.public-ne s.priv)
          f.signature (v.sign-ne s.priv _) (v.sign-verify s.priv _) in
      ground (arith, f.start, f.end, f.chunks, f.nonce)

  observe_all-n :
      (s : ReceiptSigner) (chunks : List (List ℕ × List ℕ))
      → (observe_all c s chunks).n ≡ s.n + length chunks
  unfolding observe_all observe
  observe_all-n s [] = omega arith
  observe_all-n s ((i, o) ∷ chunks) = omega (arith, observe_all-n (observe c s i o) chunks)

  -- The receipt that a stage sends after it has observed `chunks`, with its debug label.
  unfoldable pub sent :
      String → String → String → String → ℕ → ℕ → Option String → List (List ℕ × List ℕ) → Dict
  sent priv stage swarm job lo hi n chunks =
      tagged stage
        (finalize c (observe_all c (new_signer priv swarm job (pos lo) (pos hi) n) chunks))

  -- An honest stage is credited: the receipt of a signer that observed at least one chunk, sent with
  -- the debug label and stripped by `wire_receipt`, passes the checks of `verify_coverage` as an
  -- entry for its key and its block, if the block is not empty and inside the model, the job asks
  -- for no nonce or for the nonce that was signed, the key is new, and the map (if any) agrees.
  pub check_receipt-sent :
      (t : Terms) (seen : List String) (priv stage swarm job : String) (lo hi : ℕ)
      (n : Option String) (chunks : List (List ℕ × List ℕ))
      → IsSound c
      → 0 < length chunks
      → lo < hi
      → hi ≤ t.layer_count
      → (t.expected_nonce ≡ none) ⊎ (t.expected_nonce ≡ n)
      → ¬ Mem (c.public priv) seen
      → check_map t.expected_by_signer (c.public priv) lo hi ≡ ok tt
      → (e : Entry) × (check_receipt c t seen
            (wire_receipt (sent priv stage swarm job lo hi n chunks))
          ≡ ok e)
        × (e.pubkey ≡ c.public priv)
        × (e.lo ≡ lo)
        × (e.hi ≡ hi)
  unfolding sent new_signer
  check_receipt-sent t seen priv stage swarm job lo hi n chunks v some_chunks nonempty within asked
        new mapped =
      let s0 = new_signer priv swarm job (pos lo) (pos hi) n in
      let s = observe_all c s0 chunks in
      let (meta, key) = observe_all-meta s0 chunks in
      let starts : Starts s swarm job (pos lo) (pos hi) n = meta in
      (
        record { pubkey = c.public s.priv; lo = lo; hi = hi; receipt = finalize c s },
        rw (wire_receipt-tagged s stage swarm job (pos lo) (pos hi) n starts) (
            honest_check t seen s lo hi n v
              (finalize-Finished s swarm job (pos lo) (pos hi) n starts)
              (omega (arith, observe_all-n s0 chunks)) nonempty within asked (rw key new)
              (rw key mapped)),
        ap c.public key,
        refl,
        refl,
      )
