-- ===== src/Receipt/Tiling.antt =====
-- What an accepted set of receipts amounts to: the blocks tile the model and nobody is missing.
use mathlib.Core.List.{Mem}
use shard_glm_image.Base.{String, ◌≡◌, List, [], ◌∷◌, ℕ, arith, All, true}
use shard_glm_image.Base.Int.{ℤ}
use shard_glm_image.Base.Sort.{sort_by}
use shard_glm_image.Receipt.Dict.{Dict, ok, item, >>=-eq-ok}
use shard_glm_image.Receipt.Signing.{Crypto}
use shard_glm_image.Receipt.Coverage.{
  Terms, Entry, collect, check_served, check_all_served, tile, link, le_entry, verify_coverage,
  check_links,
}
use shard_glm_image.Receipt.Checked.{Collected, collect-Collected}

-- The entries follow each other from layer `a` up to layer `n`.
abbrev pub Tiles : ℕ → List Entry → ℕ → Type 0
Tiles a [] n = a ≡ n
Tiles a (e ∷ es) n = (e.lo ≡ a) × Tiles e.hi es n

tile-Tiles : (a n : ℕ) (es : List Entry) → tile a es ≡ ok n → Tiles a es n
unfolding tile
tile-Tiles a n [] h = ground arith
tile-Tiles a n (e ∷ es) h = ground (arith, tile-Tiles e.hi n es)

-- Each output root is the input root of the next stage.
abbrev pub Linked : List Entry → Type 0
Linked [] = Unit
Linked (a ∷ []) = Unit
Linked (a ∷ b ∷ es) = (item a.receipt "out_root" ≡ item b.receipt "in_root") × Linked (b ∷ es)

link-Linked : (es : List Entry) → link es ≡ ok tt → Linked es
unfolding link
link-Linked [] h = tt
link-Linked (a ∷ []) h = tt
link-Linked (a ∷ b ∷ es) h = ground (arith, link-Linked (b ∷ es))

abbrev pub Served : List (String × ℤ × ℤ) → List String → Type 0
Served m seen = All (λ a. Mem a.0 seen) m

pub check_served-Served :
    (m : List (String × ℤ × ℤ)) (seen : List String) → check_served m seen ≡ ok tt → Served m seen
unfolding check_served
check_served-Served [] seen h = tt
check_served-Served ((k, lo, hi) ∷ m) seen h = ground (arith, check_served-Served m seen)

-- An accepted set: its entries in the order received, and sorted by layer.
pub record Accepted (c : Crypto) (t : Terms) (rs : List Dict) (sorted : List Entry) : Type 0 where
  pub entries : List Entry
  pub seen : List String
  pub collected : Collected c t [] rs entries seen
  pub ordered : sorted ≡ sort_by le_entry entries
  pub served : check_all_served t.expected_by_signer seen ≡ ok tt
  pub tiles : Tiles 0 sorted t.layer_count
  pub linked : t.check_chain ≡ true → Linked sorted

pub verify_coverage-Accepted :
    (c : Crypto) (t : Terms) (rs : List Dict) (sorted : List Entry)
    → verify_coverage c t rs ≡ ok sorted
    → Accepted c t rs sorted
unfolding verify_coverage check_links
verify_coverage-Accepted c t rs sorted h =
    let (p, collected, h1) = >>=-eq-ok (collect c t [] rs) _ h in
    let e1 : sorted ≡ sort_by le_entry p.0 = ground arith in
    record {
      entries = p.0;
      seen = p.1;
      collected = collect-Collected c t [] rs p.0 p.1 collected;
      ordered = e1;
      served = ground arith;
      tiles = rw e1 (tile-Tiles 0 t.layer_count (sort_by le_entry p.0) (ground arith));
      linked = λ checked. rw e1 (link-Linked (sort_by le_entry p.0) (ground arith));
    }
