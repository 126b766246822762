-- ===== src/Receipt/Dict.antt =====
-- The JSON dictionaries that a receipt is, and the outcomes of reading them (shard/shard/receipt.py).
use shard_glm_image.Base.{
  String, ◌≡◌, refl, ite, Option, none, some, List, [], ◌∷◌, Bool, true, false, ℕ, ℕ_discrete,
  text_discrete,
}
use shard_glm_image.Base.Int.{ℤ, pos, ℤ_discrete}

-- A JSON value. Floats and nested values stand under `other`.
pub data Value : Type 0 where
  text : String → Value
  int : ℤ → Value
  flag : Bool → Value
  null : Value
  other : ℕ → Value

abbrev pub Dict : Type 0
Dict = List (String × Value)

pub data Error : Type 0 where
  key_error type_error : Error
  unknown_schema unsigned wrong_signer bad_signature : Error
  stale_nonce outside_model zero_work duplicate_signer unassigned_signer wrong_block : Error
  missing_signer coverage_broken coverage_short chain_break no_assignments : Error

-- What a call returns, or the exception that it raises.
pub data Result {ℓ} (A : Type ℓ) : Type ℓ where
  err : (raised : Error) → Result A
  ok : (value : A) → Result A

-- The next statement runs only if the one before raises nothing.
infixl 5 ◌>>=◌ ◌>>◌
abbrev pub ◌>>=◌ {ℓ κ} :
    {Old : Type ℓ} {New : Type κ} → Result Old → (Old → Result New) → Result New
err raised >>= next = err raised
ok value >>= next = next value

abbrev pub ◌>>◌ {κ} : {New : Type κ} → Result (Unit {0}) → Result New → Result New
done >> next = done >>= (λ returned. next)

-- `if not p: raise e`
abbrev pub require {ℓ} : {P : Type ℓ} → Dec P → Error → Result (Unit {0})
require (yes p) e = ok tt
require (no n) e = err e

-- `if p: raise e`
abbrev pub reject {ℓ} : {P : Type ℓ} → Dec P → Error → Result (Unit {0})
reject (yes p) e = err e
reject (no n) e = ok tt

pub require-eq-ok {ℓ} : {P : Type ℓ} (d : Dec P) (e : Error) {u : Unit {0}} → require d e ≡ ok u → P
require-eq-ok (yes p) e h = p
require-eq-ok (no n) e h = cc

pub reject-eq-ok {ℓ} : {P : Type ℓ} (d : Dec P) (e : Error) {u : Unit {0}} → reject d e ≡ ok u → ¬ P
reject-eq-ok (yes p) e h = cc
reject-eq-ok (no n) e h = n

-- Both statements have returned, if the two in a row have.
pub >>=-eq-ok {ℓ κ} :
    {Old : Type ℓ} {New : Type κ} (first : Result Old) (next : Old → Result New) {out : New}
    → (first >>= next) ≡ ok out
    → (value : Old) × (first ≡ ok value) × (next value ≡ ok out)
>>=-eq-ok (err raised) next returns = cc
>>=-eq-ok (ok value) next returns = (value, refl, returns)

unfoldable pub Value-discrete : Discrete Value
unfolding text_discrete ℤ_discrete ℕ_discrete
Value-discrete = hlevel (text_discrete, ℤ_discrete, ℕ_discrete)

-- `r.get(key)`
unfoldable pub get : Dict → String → Option Value
unfolding text_discrete
get [] key = none
get ((k, v) ∷ d) key = ite (text_discrete k key) (some v) (get d key)

-- `r[key]`
unfoldable pub item : Dict → String → Result Value
unfolding get
item d key = elim (get d key) [ none ↦ err key_error | some v ↦ ok v ]

-- `r[key] = v`: in place, or at the end.
unfoldable pub put : Dict → String → Value → Dict
unfolding text_discrete
put [] key v = (key, v) ∷ []
put ((k, w) ∷ d) key v = ite (text_discrete k key) ((k, v) ∷ d) ((k, w) ∷ put d key v)

-- `{k: v for k, v in r.items() if k != key}`
unfoldable pub without : Dict → String → Dict
unfolding text_discrete
without [] key = []
without ((k, v) ∷ d) key = ite (text_discrete k key) (without d key) ((k, v) ∷ without d key)

-- Arithmetic on a value: a Boolean counts as 0 or 1, and what is no integer raises TypeError.
unfoldable pub as_int : Value → Result ℤ
as_int (int n) = ok n
as_int (flag true) = ok (pos 1)
as_int (flag false) = ok (pos 0)
as_int (text s) = err type_error
as_int null = err type_error
as_int (other n) = err type_error

unfoldable pub Found-discrete : Discrete (Option Value)
unfolding Value-discrete
Found-discrete = hlevel Value-discrete
