-- ===== src/Manifest.antt =====
-- shard/shard/manifest.py: the signed manifest of a model's weights. Keys and signatures are their base64
-- texts, and the nested fields of a manifest are opaque values.
pub mod Signed
use shard_glm_image.Base.{String, ◌≡◌, Option, none, some, List, ℕ}
use shard_glm_image.Receipt.Dict.{
  Value, text, Dict, unknown_schema, Result, ok, ◌>>=◌, ◌>>◌, require, Found-discrete, get, put,
  without,
}
use shard_glm_image.Receipt.Signing.{Crypto, truthy, check_signer, decode, check_signature}

abbrev pub manifest_schema : Value
manifest_schema = text "shard-manifest/1"

module _ (c : Crypto) where
  -- The bytes that are signed: the manifest without its signature.
  unfoldable pub signed_bytes : Dict → List ℕ
  unfolding without
  signed_bytes manifest = c.dumps (without manifest "signature")

  unfoldable pub sign_manifest : Dict → String → Dict
  unfolding without put signed_bytes
  sign_manifest manifest priv =
      let m = put (without manifest "signature") "publisher_pubkey" (text (c.public priv)) in
      put m "signature" (text (c.sign priv (signed_bytes m)))

  -- The verified publisher of the manifest.
  unfoldable pub verify_manifest : Dict → Option String → Result String
  verify_manifest manifest expected = do
    require (Found-discrete (get manifest "schema") (some manifest_schema)) unknown_schema
    publisher ← truthy (get manifest "publisher_pubkey")
    sig ← truthy (get manifest "signature")
    check_signer expected publisher
    public ← decode publisher
    signature ← decode sig
    check_signature (c.verify public (signed_bytes manifest) signature)
    ok public
