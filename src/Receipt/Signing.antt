-- ===== src/Receipt/Signing.antt =====
-- shard/shard/receipt.py: the signer of one stage, the signed bytes, and the check of one receipt.
use shard_glm_image.Base.{
  String, ◌≡◌, ite, Option, none, some, List, [], ◌∷◌, ◌++◌, ◌≢◌, Bool, true, false, ℕ, zero, ◌+◌,
  text_discrete,
}
use shard_glm_image.Base.Int.{ℤ, pos}
use shard_glm_image.Receipt.Dict.{
  Value, text, int, flag, null, Dict, unknown_schema, unsigned, wrong_signer, bad_signature, Result,
  ok, err, ◌>>=◌, ◌>>◌, require, Value-discrete, Found-discrete, get, put, without,
}

-- What `cryptography`, `hashlib` and `json.dumps` do: keys and signatures are their base64 texts.
pub record Crypto : Type 0 where
  pub public : String → String
  pub sign : String → List ℕ → String
  pub verify : String → List ℕ → String → Bool
  pub sha256 : List ℕ → List ℕ
  pub hexdigest : List ℕ → String
  pub dumps : Dict → List ℕ

-- The documented behaviour of ed25519: a signature made with a key verifies under its public key,
-- and neither text is empty.
pub record IsSound (c : Crypto) : Type 0 where
  pub sign-verify : (k : String) (m : List ℕ) → c.verify (c.public k) m (c.sign k m) ≡ true
  pub public-ne : (k : String) → c.public k ≢ ""
  pub sign-ne : (k : String) (m : List ℕ) → c.sign k m ≢ ""

abbrev pub schema : Value
schema = text "shard-receipt/1"

-- `if not v: raise`, for `v = r.get(..)`: a value that is there and is not empty.
unfoldable pub truthy : Option Value → Result Value
truthy (some (text s)) = ite (text_discrete s "") (err unsigned) (ok (text s))
truthy (some (int (pos zero))) = err unsigned
truthy (some (flag false)) = err unsigned
truthy (some null) = err unsigned
truthy none = err unsigned
truthy (some v) = ok v

-- `expected_pubkey is not None and pub_b64 != expected_pubkey`
unfoldable pub check_signer : Option String → Value → Result (Unit {0})
check_signer none signer = ok tt
check_signer (some want) signer = require (Value-discrete signer (text want)) wrong_signer

-- What is no text does not decode as base64, and the handler takes any exception.
unfoldable pub decode : Value → Result String
decode (text s) = ok s
decode v = err bad_signature

unfoldable pub check_signature : Bool → Result (Unit {0})
check_signature true = ok tt
check_signature false = err bad_signature

module _ (c : Crypto) where
  unfoldable pub canonical : Dict → List ℕ
  unfolding without
  canonical receipt = c.dumps (without receipt "sig")

  -- The verified signer of the receipt.
  unfoldable pub verify_receipt : Dict → Option String → Result String
  verify_receipt receipt expected = do
    require (Found-discrete (get receipt "schema") (some schema)) unknown_schema
    signer ← truthy (get receipt "pubkey")
    sig ← truthy (get receipt "sig")
    check_signer expected signer
    public ← decode signer
    signature ← decode sig
    check_signature (c.verify public (canonical receipt) signature)
    ok public

-- `wire_receipt`: without the label that the stage adds after it signed.
unfoldable pub wire_receipt : Dict → Dict
unfolding without
wire_receipt receipt = without receipt "stage"

-- `ReceiptSigner`: the chunk hashes fed to the two running hashes so far.
pub record ReceiptSigner : Type 0 where
  pub priv : String
  pub meta : Dict
  pub in_fed : List ℕ
  pub out_fed : List ℕ
  pub n : ℕ

unfoldable pub nonce_entry : Option String → Dict
nonce_entry none = []
nonce_entry (some nonce) = ("nonce", text nonce) ∷ []

-- `ReceiptSigner.__init__`
unfoldable pub new_signer : String → String → String → ℤ → ℤ → Option String → ReceiptSigner
unfolding nonce_entry
new_signer priv swarm_id job_id layer_start layer_end nonce = record {
  priv = priv;
  meta =
      ("swarm_id", text swarm_id)
      ∷ ("job_id", text job_id)
      ∷ ("layer_start", int layer_start)
      ∷ ("layer_end", int layer_end)
      ∷ nonce_entry nonce;
  in_fed = [];
  out_fed = [];
  n = 0;
}

module _ (c : Crypto) where
  unfoldable pub observe : ReceiptSigner → List ℕ → List ℕ → ReceiptSigner
  observe s in_bytes out_bytes = record s {
    in_fed = s.in_fed ++ c.sha256 in_bytes;
    out_fed = s.out_fed ++ c.sha256 out_bytes;
    n = s.n + 1;
  }

  -- The body that is signed.
  unfoldable pub body : ReceiptSigner → Dict
  unfolding put
  body s =
      put
        (put
          (put (put (put s.meta "schema" schema) "n_chunks" (int (pos s.n))) "in_root"
            (text (c.hexdigest s.in_fed)))
          "out_root" (text (c.hexdigest s.out_fed)))
        "pubkey" (text (c.public s.priv))

  unfoldable pub finalize : ReceiptSigner → Dict
  unfolding body canonical
  finalize s = put (body s) "sig" (text (c.sign s.priv (canonical c (body s))))
