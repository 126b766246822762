-- ===== src/Receipt/Settlement.antt =====
-- What a settlement guarantees (shard/shard/verify.py `settle`, over shard/shard/receipt.py).
use mathlib.Core.List.{Mem, Perm, Nodup, Nodup-cons, Nodup-nil, perm_middle, append-nil}
use mathlib.Core.List.Perm
use shard_glm_image.Base.{
  String, ◌≡◌, refl, subst, Option, none, some, List, [], ◌∷◌, ◌++◌, ℕ, ◌<◌, ◌≤◌, ◌+◌, arith, map,
  sum_of, All, true, false, Bool,
}
use shard_glm_image.Base.Int.{ℤ, pos, pos_part}
use shard_glm_image.Base.Sort.{sort_by, sort_by-perm, sort_by-map, All-sort_by}
use shard_glm_image.Receipt.Dict.{Dict, ok, get, >>=-eq-ok}
use shard_glm_image.Receipt.Signing.{Crypto, verify_receipt}
use shard_glm_image.Receipt.Coverage.{
  Terms, Entry, assigned, check_assigned, check_nonce, check_work, check_map, check_all_served,
  le_entry, collect, check_receipt, verify_coverage,
}
use shard_glm_image.Receipt.Settle.{Stage, stages, le_stage, settle, settle_unpinned, Settlement}
use shard_glm_image.Receipt.Checked.{entry_stage, Checked, Collected, done, more, Collected-stages}
use shard_glm_image.Receipt.Tiling.{
  Tiles, Linked, Served, check_served-Served, Accepted, verify_coverage-Accepted,
}

abbrev pub signers : List Entry → List String
signers = map (λ e. e.pubkey)

abbrev pub dicts : List Entry → List Dict
dicts = map (λ e. e.receipt)

-- The terms of a pinned settlement.
abbrev pub pinned_terms : ℕ → Option String → Bool → List (String × ℤ × ℤ) → Terms
pinned_terms layer_count job_nonce chain m = record {
  layer_count = layer_count;
  expected_by_signer = some m;
  expected_nonce = job_nonce;
  check_chain = chain;
}

-- What a stage is paid on: a signature of its own key over this job's nonce, for real work, on
-- exactly the block that the swarm assigned to that key.
pub record Attested (c : Crypto) (layer_count : ℕ) (job_nonce : Option String)
    (m : List (String × ℤ × ℤ)) (e : Entry) : Type 0 where
  pub verified : verify_receipt c e.receipt none ≡ ok e.pubkey
  pub fresh : check_nonce job_nonce e.receipt ≡ ok tt
  pub worked : check_work (get e.receipt "n_chunks") ≡ ok tt
  pub nonempty : e.lo < e.hi
  pub within : e.hi ≤ layer_count
  pub block : assigned m e.pubkey ≡ some (pos e.lo, pos e.hi)

Checked-Attested :
    {c : Crypto} {layer_count : ℕ} {job_nonce : Option String} {chain : Bool}
    {m : List (String × ℤ × ℤ)} {seen : List String} {r : Dict} {e : Entry}
    → Checked c (pinned_terms layer_count job_nonce chain m) seen r e
    → Attested c layer_count job_nonce m e
unfolding check_map check_assigned
Checked-Attested {job_nonce} {m} {r} {e} k = record {
  verified = rw k.same k.verified;
  fresh = rw k.same k.fresh;
  worked = rw k.same k.worked;
  nonempty = k.nonempty;
  within = k.within;
  block = ground (arith, k.mapped);
}

Collected-Attested :
    {c : Crypto} {layer_count : ℕ} {job_nonce : Option String} {chain : Bool}
    {m : List (String × ℤ × ℤ)} {seen : List String} {rs : List Dict} {es : List Entry}
    {seen' : List String}
    → Collected c (pinned_terms layer_count job_nonce chain m) seen rs es seen'
    → All (Attested c layer_count job_nonce m) es
Collected-Attested (done seen) = tt
Collected-Attested (more k l) = (Checked-Attested k, Collected-Attested l)

module _ {c : Crypto} {t : Terms} where
  Collected-dicts :
      {seen : List String} {rs : List Dict} {es : List Entry} {seen' : List String}
      → Collected c t seen rs es seen'
      → dicts es ≡ rs
  Collected-dicts (done seen) = refl
  Collected-dicts (more k l) = ground (arith, k.same, Collected-dicts l)

  Collected-seen :
      {seen : List String} {rs : List Dict} {es : List Entry} {seen' : List String}
      → Collected c t seen rs es seen'
      → Perm seen' (signers es ++ seen)
  Collected-seen (done seen) = Perm.refl seen
  Collected-seen (more {seen = s} {e = e} {es = es} k l) =
      Perm.trans (Collected-seen l) (perm_middle (signers es) s)

  Collected-Nodup :
      {seen : List String} {rs : List Dict} {es : List Entry} {seen' : List String}
      → Collected c t seen rs es seen'
      → Nodup seen
      → Nodup seen'
  Collected-Nodup (done seen) d = d
  Collected-Nodup (more k l) d = Collected-Nodup l (Nodup-cons.1 (k.unseen, d))

le_entry-stage : (a b : Entry) → le_stage (entry_stage a) (entry_stage b) ≡ le_entry a b
le_entry-stage a b = ground arith

pub record Settled (c : Crypto) (rs : List Dict) (layer_count : ℕ) (job_nonce : Option String)
    (chain : Bool) (m : List (String × ℤ × ℤ)) (out : Settlement) : Type 0 where
  pub entries : List Entry
  pub pinned : out.pinned ≡ true
  pub counted : out.layer_count ≡ layer_count
  pub paid : out.stages ≡ map entry_stage entries
  pub each_once : Perm (dicts entries) rs
  pub tiles : Tiles 0 entries layer_count
  pub attested : All (Attested c layer_count job_nonce m) entries
  pub distinct : Nodup (signers entries)
  pub served : All (λ a. Mem a.0 (signers entries)) m
  pub linked : chain ≡ true → Linked entries

signers-perm : (es : List Entry) → Perm (signers (sort_by le_entry es)) (signers es)
signers-perm es = Perm.map (λ e. e.pubkey) (sort_by-perm le_entry es)

Accepted-Settled :
    {c : Crypto} {rs : List Dict} {layer_count : ℕ} {job_nonce : Option String} {chain : Bool}
    (m : List (String × ℤ × ℤ)) (sorted : List Entry) (ss : List Stage)
    → Accepted c (pinned_terms layer_count job_nonce chain m) rs sorted
    → stages rs ≡ ok ss
    → Settled c rs layer_count job_nonce chain m
        (record { pinned = true; layer_count = layer_count; stages = ss })
unfolding stages check_all_served
Accepted-Settled {c} {rs} {layer_count} {job_nonce} {chain} m sorted ss a s = record {
  entries = sorted;
  pinned = refl;
  counted = refl;
  paid = paid_lem;
  each_once =
      rw (a.ordered, ← Collected-dicts a.collected)
        (Perm.map (λ (e : Entry). e.receipt) (sort_by-perm le_entry a.entries));
  tiles = a.tiles;
  attested = rw a.ordered (All-sort_by le_entry _ a.entries (Collected-Attested a.collected));
  distinct = Perm.nodup (Perm.symm everyone) (Collected-Nodup a.collected Nodup-nil);
  served = All-subset m (check_served-Served m a.seen a.served);
  linked = a.linked;
}
  where
    paid_lem : ss ≡ map entry_stage sorted
    paid_lem = ground (
      arith,
      Collected-stages a.collected,
      sort_by-map le_entry le_stage entry_stage le_entry-stage a.entries,
      a.ordered,
    )

    everyone : Perm (signers sorted) a.seen
    everyone = rw a.ordered (
        Perm.trans (signers-perm a.entries)
          (Perm.symm (rw append-nil at (Collected-seen a.collected))))

    All-subset :
        (m' : List (String × ℤ × ℤ)) → Served m' a.seen → All (λ k. Mem k.0 (signers sorted)) m'
    All-subset [] h = tt
    All-subset (k ∷ m') h = (Perm.subset (Perm.symm everyone) k.0 h.0, All-subset m' h.1)

-- If `settle` pays, then with the sorted entries behind the stages it pays: each given receipt is
-- paid exactly once; the blocks tile [0, layer_count); each receipt verifies under the key paid for
-- it, carries the job's nonce, attests work, and covers the block that the map assigns to that key;
-- no key is paid twice; every assigned key is among those paid; and with `check_chain` each output
-- root is the next input root.
pub settle-Settled :
    (c : Crypto) (rs : List Dict) (layer_count : ℕ) (job_nonce : Option String) (chain : Bool)
    (m : List (String × ℤ × ℤ)) (out : Settlement)
    → settle c rs layer_count job_nonce chain m ≡ ok out
    → Settled c rs layer_count job_nonce chain m out
unfolding settle
settle-Settled c rs n job_nonce chain [] out h = cc
settle-Settled c rs n job_nonce chain (a ∷ m) out h =
    let (sorted, checked, h1) =
      >>=-eq-ok (verify_coverage c (pinned_terms n job_nonce chain (a ∷ m)) rs) _ h in
    let (ss, staged, h2) = >>=-eq-ok (stages rs) _ h1 in
    subst (Settled c rs n job_nonce chain (a ∷ m)) (ground arith)
      (Accepted-Settled (a ∷ m) sorted ss (verify_coverage-Accepted c _ rs sorted checked) staged)

-- The layers of the stages.
abbrev pub paid_layers : List Stage → ℕ
paid_layers = sum_of (λ s. pos_part s.layers)

Tiles-sum :
    (c : Crypto) (n : ℕ) (job_nonce : Option String) (m : List (String × ℤ × ℤ)) (a b : ℕ)
    (es : List Entry)
    → All (Attested c n job_nonce m) es
    → Tiles a es b
    → a + paid_layers (map entry_stage es) ≡ b
Tiles-sum c n job_nonce m a b [] w h = omega arith
Tiles-sum c n job_nonce m a b (e ∷ es) w h =
    omega (arith, Tiles-sum c n job_nonce m e.hi b es w.1 h.1, w.0.nonempty, h.0)

-- The layers that a pinned settlement pays for add up to the depth of the model.
pub paid_layers-settle :
    (c : Crypto) (rs : List Dict) (layer_count : ℕ) (job_nonce : Option String) (chain : Bool)
    (m : List (String × ℤ × ℤ)) (out : Settlement)
    → settle c rs layer_count job_nonce chain m ≡ ok out
    → paid_layers out.stages ≡ layer_count
paid_layers-settle c rs n job_nonce chain m out h =
    let s = settle-Settled c rs n job_nonce chain m out h in
    rw s.paid (omega (arith, Tiles-sum c n job_nonce m 0 n s.entries s.attested s.tiles))

check_receipt-unpin :
    (c : Crypto) (t : Terms) (seen : List String) (r : Dict) {e : Entry}
    → check_receipt c t seen r ≡ ok e
    → check_receipt c (record t { expected_by_signer = none }) seen r ≡ ok e
unfolding check_receipt check_map
check_receipt-unpin c t seen r h = ground arith

collect-unpin :
    (c : Crypto) (t : Terms) (seen : List String) (rs : List Dict) {p : List Entry × List String}
    → collect c t seen rs ≡ ok p
    → collect c (record t { expected_by_signer = none }) seen rs ≡ ok p
unfolding collect
collect-unpin c t seen [] h = h
collect-unpin c t seen (r ∷ rs) h =
    let (e, checked, h1) = >>=-eq-ok (check_receipt c t seen r) _ h in
    let (p, rest, h2) = >>=-eq-ok (collect c t (e.pubkey ∷ seen) rs) _ h1 in
    rw (check_receipt-unpin c t seen r checked, collect-unpin c t (e.pubkey ∷ seen) rs rest) h2

verify_coverage-unpin :
    (c : Crypto) (t : Terms) (rs : List Dict) {sorted : List Entry}
    → verify_coverage c t rs ≡ ok sorted
    → verify_coverage c (record t { expected_by_signer = none }) rs ≡ ok sorted
unfolding verify_coverage check_all_served
verify_coverage-unpin c t rs h =
    let (p, collected, h1) = >>=-eq-ok (collect c t [] rs) _ h in
    let (_, served, h2) = >>=-eq-ok (check_all_served t.expected_by_signer p.1) _ h1 in
    rw (collect-unpin c t [] rs collected) h2

-- What the payment path accepts, the diagnostic path accepts too, with the same stages.
pub settle_unpinned-settle :
    (c : Crypto) (rs : List Dict) (layer_count : ℕ) (job_nonce : Option String) (chain : Bool)
    (m : List (String × ℤ × ℤ)) (out : Settlement)
    → settle c rs layer_count job_nonce chain m ≡ ok out
    → settle_unpinned c rs layer_count job_nonce chain ≡ ok (record out { pinned = false })
unfolding settle settle_unpinned
settle_unpinned-settle c rs n job_nonce chain [] out h = cc
settle_unpinned-settle c rs n job_nonce chain (a ∷ m) out h =
    let (sorted, checked, h1) =
      >>=-eq-ok (verify_coverage c (pinned_terms n job_nonce chain (a ∷ m)) rs) _ h in
    let (ss, staged, h2) = >>=-eq-ok (stages rs) _ h1 in
    rw (verify_coverage-unpin c (pinned_terms n job_nonce chain (a ∷ m)) rs checked, staged)
      (ground arith)
