-- ===== src/Manifest/Signed.antt =====
-- A manifest that is signed verifies (shard/shard/manifest.py).
use shard_glm_image.Base.{
  String, ◌≡◌, ◌≢◌, ◌∙◌, refl, sym, ap, ite, if_pos, if_neg, Option, none, some, [], ◌∷◌, ◌⊎◌,
  text_discrete, true, arith,
}
use shard_glm_image.Receipt.Dict.{Value, text, Dict, ok, get, put, without}
use shard_glm_image.Receipt.Signing.{Crypto, IsSound, truthy, check_signer, decode, check_signature}
use shard_glm_image.Manifest.{manifest_schema, signed_bytes, sign_manifest, verify_manifest}

get-put : (d : Dict) (k : String) (v : Value) → get (put d k v) k ≡ some v
unfolding get put
get-put [] k v = if_pos (text_discrete k k) refl (some v) none
get-put ((j, w) ∷ d) k v =
    elim (text_discrete j k) as (λ t. get (ite t ((j, v) ∷ d) ((j, w) ∷ put d k v)) k ≡ some v) [
      | yes e ↦ if_pos (text_discrete j k) e (some v) (get d k)
      | no n ↦ if_neg (text_discrete j k) n (some w) (get (put d k v) k) ∙ get-put d k v
    ]

get-put_other : (d : Dict) (k l : String) (v : Value) → k ≢ l → get (put d k v) l ≡ get d l
unfolding get put
get-put_other [] k l v o = if_neg (text_discrete k l) o (some v) none
get-put_other ((j, w) ∷ d) k l v o =
    elim (text_discrete j k)
      as (λ t. get (ite t ((j, v) ∷ d) ((j, w) ∷ put d k v)) l ≡ get ((j, w) ∷ d) l) [
        | yes e ↦
            let apart : j ≢ l = λ p. o (sym e ∙ p) in
            if_neg (text_discrete j l) apart (some v) (get d l)
            ∙ sym (if_neg (text_discrete j l) apart (some w) (get d l))
        | no n ↦ ap (ite (text_discrete j l) (some w)) (get-put_other d k l v o)
      ]

get-without : (d : Dict) (k l : String) → k ≢ l → get (without d k) l ≡ get d l
unfolding get without
get-without [] k l o = refl
get-without ((j, w) ∷ d) k l o =
    elim (text_discrete j k)
      as (λ t. get (ite t (without d k) ((j, w) ∷ without d k)) l ≡ get ((j, w) ∷ d) l) [
        | yes e ↦
            get-without d k l o
            ∙ sym (if_neg (text_discrete j l) (λ p. o (sym e ∙ p)) (some w) (get d l))
        | no n ↦ ap (ite (text_discrete j l) (some w)) (get-without d k l o)
      ]

without-put : (d : Dict) (k : String) (v : Value) → without (put d k v) k ≡ without d k
unfolding put without
without-put [] k v = if_pos (text_discrete k k) refl [] ((k, v) ∷ [])
without-put ((j, w) ∷ d) k v =
    elim (text_discrete j k)
      as (λ t. without (ite t ((j, v) ∷ d) ((j, w) ∷ put d k v)) k ≡ without ((j, w) ∷ d) k) [
        | yes e ↦
            if_pos (text_discrete j k) e (without d k) ((j, v) ∷ without d k)
            ∙ sym (if_pos (text_discrete j k) e (without d k) ((j, w) ∷ without d k))
        | no n ↦
            if_neg (text_discrete j k) n (without (put d k v) k) ((j, w) ∷ without (put d k v) k)
            ∙ ap (◌∷◌ (j, w)) (without-put d k v)
            ∙ sym (if_neg (text_discrete j k) n (without d k) ((j, w) ∷ without d k))
      ]

module _ (c : Crypto) where
  verify_manifest-eq-ok :
      (m : Dict) (p g : String) (expected : Option String)
      → get m "schema" ≡ some manifest_schema
      → get m "publisher_pubkey" ≡ some (text p)
      → p ≢ ""
      → get m "signature" ≡ some (text g)
      → g ≢ ""
      → check_signer expected (text p) ≡ ok tt
      → c.verify p (signed_bytes c m) g ≡ true
      → verify_manifest c m expected ≡ ok p
  unfolding verify_manifest truthy decode check_signature
  verify_manifest-eq-ok m p g expected labelled publisher p_ne signature g_ne pinned good =
      ground arith

  check_signer_own :
      (p : String) (expected : Option String)
      → (expected ≡ none) ⊎ (expected ≡ some p)
      → check_signer expected (text p) ≡ ok tt
  unfolding check_signer
  check_signer_own p none pin = refl
  check_signer_own p (some want) pin = ground arith

  -- With signatures that verify under their own key, a manifest of the right schema that `sign_manifest` has signed
  -- is accepted by `verify_manifest`, without a pinned key and with the signer's key pinned, whatever
  -- publisher or signature it carried before.
  pub verify_manifest-sign_manifest :
      (manifest : Dict) (priv : String) (expected : Option String)
      → IsSound c
      → get manifest "schema" ≡ some manifest_schema
      → (expected ≡ none) ⊎ (expected ≡ some (c.public priv))
      → verify_manifest c (sign_manifest c manifest priv) expected ≡ ok (c.public priv)
  unfolding sign_manifest signed_bytes
  verify_manifest-sign_manifest manifest priv expected sound labelled pin =
      let bare = without manifest "signature" in
      let key : Value = text (c.public priv) in
      let m = put bare "publisher_pubkey" key in
      let g = c.sign priv (signed_bytes c m) in
      let signed = put m "signature" (text g) in
      verify_manifest-eq-ok signed (c.public priv) g expected
        (get-put_other m "signature" "schema" (text g) (λ e. cc)
          ∙ get-put_other bare "publisher_pubkey" "schema" key (λ e. cc)
          ∙ get-without manifest "signature" "schema" (λ e. cc)
          ∙ labelled)
        (get-put_other m "signature" "publisher_pubkey" (text g) (λ e. cc)
          ∙ get-put bare "publisher_pubkey" key)
        (sound.public-ne priv) (get-put m "signature" (text g))
        (sound.sign-ne priv (signed_bytes c m)) (check_signer_own (c.public priv) expected pin)
        (ap (λ (d : Dict). c.verify (c.public priv) (c.dumps d) g)
            (without-put m "signature" (text g))
          ∙ sound.sign-verify priv (signed_bytes c m))
