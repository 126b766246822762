-- ===== src/Tests/Manifests.antt =====
-- A manifest that is signed, altered and checked (shard/shard/manifest.py).
use shard_glm_image.Base.{◌≡◌, refl, none, some, [], ◌∷◌, inr, text_discrete}
use shard_glm_image.Receipt.Dict.{
  Dict, ok, err, text, other, unsigned, wrong_signer, unknown_schema, get, put, without,
  Value-discrete, Found-discrete,
}
use shard_glm_image.Receipt.Signing.{truthy, check_signer, decode, check_signature}
use shard_glm_image.Manifest.{manifest_schema, signed_bytes, sign_manifest, verify_manifest}
use shard_glm_image.Manifest.Signed.{verify_manifest-sign_manifest}
use shard_glm_image.Tests.Receipts.{toy, toy-IsSound}

-- It carries a signature of an earlier version.
abbrev draft : Dict
draft = ("schema", manifest_schema) ∷ ("signature", text "old") ∷ ("weight_map", other 7) ∷ []

program : Unit {0}
unfolding text_discrete get put without truthy check_signer decode check_signature signed_bytes
    sign_manifest verify_manifest Value-discrete Found-discrete toy
program = tt

labelled : get draft "schema" ≡ some manifest_schema
unfolding program
labelled = refl

unsigned_lem : verify_manifest toy (("schema", manifest_schema) ∷ []) none ≡ err unsigned
unfolding program
unsigned_lem = refl

other_publisher :
    verify_manifest toy (sign_manifest toy draft "mine") (some "theirs") ≡ err wrong_signer
unfolding program
other_publisher = refl

other_schema :
    verify_manifest toy (("schema", text "shard-receipt/1") ∷ []) none ≡ err unknown_schema
unfolding program
other_schema = refl

verify_manifest-sign_manifest_example :
    verify_manifest toy (sign_manifest toy draft "mine") (some (toy.public "mine"))
    ≡ ok (toy.public "mine")
verify_manifest-sign_manifest_example =
    verify_manifest-sign_manifest toy draft "mine" (some (toy.public "mine")) toy-IsSound labelled
      (inr refl)
