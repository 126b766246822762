-- ===== src/Transport/Sending.antt =====
-- `_sendall_vectored` (shard/shard/transport.py): however little the kernel takes at a time, all bytes
-- go out, in order.
use mathlib.Core.List.{append_assoc, append-nil}
use shard_glm_image.Base.{
  ℕ, zero, suc, ◌-◌, ◌≤◌, ◌<◌, ◌≡◌, ◌∙◌, refl, sym, ap, List, [], ◌∷◌, ◌++◌, arith, length, take,
  drop, leb, ◌==◌, if◌then◌else◌, Bool-cases, inl, inr, length-append, All,
}
use shard_glm_image.Transport.Bytes.{Bytes}

abbrev pub concat : List Bytes → Bytes
concat [] = []
concat (b ∷ bs) = b ++ concat bs

-- `[memoryview(p) for p in parts if len(p)]`
unfoldable pub nonempty : List Bytes → List Bytes
nonempty [] = []
nonempty (p ∷ parts) = let rest = nonempty parts in if length p == 0 then rest else p ∷ rest

-- The two statements that drop what was sent: whole segments, then a part of one.
unfoldable pub advance : ℕ → List Bytes → List Bytes
advance sent [] = []
advance sent (b ∷ bufs) =
    let rest = advance (sent - length b) bufs in
    if leb (length b) sent then rest else drop sent b ∷ bufs

abbrev pub iov_cap : ℕ
iov_cap = 512

-- What one call of `sendmsg` puts on the wire: the kernel takes `k` bytes of those it is offered, or
-- all of them if they are fewer.
unfoldable pub taken : ℕ → List Bytes → Bytes
taken k bufs = take k (concat (take iov_cap bufs))

-- The loop, with the kernel's answers as a list, which is also its fuel: the bytes on the wire, and
-- what is not sent yet.
unfoldable pub send_loop : List ℕ → List Bytes → Bytes × List Bytes
unfolding taken advance
send_loop answers [] = ([], [])
send_loop [] (b ∷ bufs) = ([], b ∷ bufs)
send_loop (k ∷ answers) (b ∷ bufs) =
    let out = taken k (b ∷ bufs) in
    let (wire, left) = send_loop answers (advance (length out) (b ∷ bufs)) in (out ++ wire, left)

unfoldable pub sendall_vectored : List ℕ → List Bytes → Bytes × List Bytes
unfolding nonempty send_loop
sendall_vectored answers parts = send_loop answers (nonempty parts)

take-drop : (k : ℕ) (xs : Bytes) → take k xs ++ drop k xs ≡ xs
take-drop zero xs = refl
take-drop (suc k) [] = refl
take-drop (suc k) (x ∷ xs) = ap (◌∷◌ x) (take-drop k xs)

drop-append : (k : ℕ) (xs ys : Bytes) → length xs ≤ k → drop k (xs ++ ys) ≡ drop (k - length xs) ys
drop-append k [] ys h = ap (λ (j : ℕ). drop j ys) (omega arith)
drop-append zero (x ∷ xs) ys h = absurd (omega arith)
drop-append (suc k) (x ∷ xs) ys h =
    drop-append k xs ys (omega arith) ∙ ap (λ (j : ℕ). drop j ys) (omega arith)

drop-append_left : (k : ℕ) (xs ys : Bytes) → k ≤ length xs → drop k (xs ++ ys) ≡ drop k xs ++ ys
drop-append_left zero xs ys h = refl
drop-append_left (suc k) [] ys h = absurd (omega arith)
drop-append_left (suc k) (x ∷ xs) ys h = drop-append_left k xs ys (omega arith)

-- What is left after `sent` bytes.
advance-concat :
    (sent : ℕ) (bufs : List Bytes) → concat (advance sent bufs) ≡ drop sent (concat bufs)
unfolding advance
advance-concat zero [] = refl
advance-concat (suc sent) [] = refl
advance-concat sent (b ∷ bufs) = elim (Bool-cases (leb (length b) sent)) [
  | inl y ↦ rw y (
      advance-concat (sent - length b) bufs
      ∙ sym (drop-append sent b (concat bufs) (ground (arith, y))))
  | inr n ↦ rw n (sym (drop-append_left sent b (concat bufs) (ground (arith, n))))
]

concat-take-drop :
    (k : ℕ) (bufs : List Bytes) → concat (take k bufs) ++ concat (drop k bufs) ≡ concat bufs
concat-take-drop zero bufs = refl
concat-take-drop (suc k) [] = refl
concat-take-drop (suc k) (b ∷ bufs) =
    append_assoc b (concat (take k bufs)) (concat (drop k bufs))
    ∙ ap (λ (r : Bytes). b ++ r) (concat-take-drop k bufs)

drop_self : (xs ys : Bytes) → drop (length xs) (xs ++ ys) ≡ ys
drop_self [] ys = refl
drop_self (x ∷ xs) ys = drop_self xs ys

-- What one call takes, and what is left after it, are the bytes that were to be sent.
taken-advance :
    (k : ℕ) (bufs : List Bytes)
    → taken k bufs ++ concat (advance (length (taken k bufs)) bufs) ≡ concat bufs
unfolding taken
taken-advance k bufs =
    let offered = concat (take iov_cap bufs) in
    let rest = drop k offered ++ concat (drop iov_cap bufs) in
    let whole : take k offered ++ rest ≡ concat bufs =
      sym (append_assoc (take k offered) (drop k offered) (concat (drop iov_cap bufs)))
      ∙ ap (λ (s : Bytes). s ++ concat (drop iov_cap bufs)) (take-drop k offered)
      ∙ concat-take-drop iov_cap bufs in
    ap (λ (s : Bytes). take k offered ++ s)
      (advance-concat (length (take k offered)) bufs
        ∙ ap (drop (length (take k offered))) (sym whole)
        ∙ drop_self (take k offered) rest)
    ∙ whole

send_loop-concat :
    (answers : List ℕ) (bufs : List Bytes)
    → (send_loop answers bufs).0 ++ concat (send_loop answers bufs).1 ≡ concat bufs
unfolding send_loop
send_loop-concat [] [] = refl
send_loop-concat (k ∷ answers) [] = refl
send_loop-concat [] (b ∷ bufs) = refl
send_loop-concat (k ∷ answers) (b ∷ bufs) =
    let out = taken k (b ∷ bufs) in
    append_assoc out _ _
    ∙ ap (λ (s : Bytes). out ++ s) (send_loop-concat answers (advance (length out) (b ∷ bufs)))
    ∙ taken-advance k (b ∷ bufs)

-- No segment is empty.
abbrev Filled : List Bytes → Type 0
Filled bufs = All (λ b. 0 < length b) bufs

nonempty-Filled : (parts : List Bytes) → Filled (nonempty parts)
unfolding nonempty
nonempty-Filled [] = tt
nonempty-Filled (p ∷ parts) = elim (Bool-cases (length p == 0)) [
  | inl y ↦ rw y (nonempty-Filled parts)
  | inr n ↦ rw n (ground (arith, n), nonempty-Filled parts)
]

nonempty-concat : (parts : List Bytes) → concat (nonempty parts) ≡ concat parts
unfolding nonempty
nonempty-concat [] = refl
nonempty-concat ([] ∷ parts) = nonempty-concat parts
nonempty-concat ((b ∷ p) ∷ parts) = elim (Bool-cases (length (b ∷ p) == 0)) [
  | inl y ↦ absurd (ground (arith, y))
  | inr n ↦ rw n (ap (λ (s : Bytes). b ∷ (p ++ s)) (nonempty-concat parts))
]

length-drop : (k : ℕ) (xs : Bytes) → length (drop k xs) ≡ length xs - k
length-drop zero xs = omega arith
length-drop (suc k) [] = omega arith
length-drop (suc k) (x ∷ xs) = omega (arith, length-drop k xs)

advance-Filled : (sent : ℕ) (bufs : List Bytes) → Filled bufs → Filled (advance sent bufs)
unfolding advance
advance-Filled sent [] h = tt
advance-Filled sent (b ∷ bufs) (p, ps) = elim (Bool-cases (leb (length b) sent)) [
  | inl y ↦ rw y (advance-Filled (sent - length b) bufs ps)
  | inr n ↦ rw n (ground (arith, n, length-drop sent b), ps)
]

taken_some :
    (k : ℕ) (b : Bytes) (bufs : List Bytes) → 0 < k → 0 < length b → 0 < length (taken k (b ∷ bufs))
unfolding taken
taken_some zero b bufs h p = absurd (omega arith)
taken_some (suc k) [] bufs h p = absurd (omega arith)
taken_some (suc k) (x ∷ b) bufs h p = omega arith

send_loop-done :
    (answers : List ℕ) (bufs : List Bytes)
    → All (λ k. 0 < k) answers
    → Filled bufs
    → length (concat bufs) ≤ length answers
    → (send_loop answers bufs).1 ≡ []
unfolding send_loop
send_loop-done [] [] a f h = refl
send_loop-done (k ∷ answers) [] a f h = refl
send_loop-done [] ([] ∷ bufs) a f h = absurd (omega (arith, f.0))
send_loop-done [] ((x ∷ b) ∷ bufs) a f h = absurd (omega arith)
send_loop-done (k ∷ answers) (b ∷ bufs) a f h =
    let out = taken k (b ∷ bufs) in
    send_loop-done answers (advance (length out) (b ∷ bufs)) a.1
      (advance-Filled (length out) (b ∷ bufs) f)
      (omega (
        arith,
        h,
        taken_some k b bufs a.0 f.0,
        ap length (taken-advance k (b ∷ bufs)),
        length-append out (concat (advance (length out) (b ∷ bufs))),
      ))

-- Whatever part the kernel takes at each call, if it takes at least one byte at a time and is called
-- often enough, all segments go out: the bytes on the wire are the segments joined, nothing twice,
-- nothing skipped, nothing in another order; and one call for each byte is enough.
pub sendall_vectored-concat :
    (answers : List ℕ) (parts : List Bytes)
    → All (λ k. 0 < k) answers
    → length (concat parts) ≤ length answers
    → ((sendall_vectored answers parts).0 ≡ concat parts)
      × ((sendall_vectored answers parts).1 ≡ [])
unfolding sendall_vectored
sendall_vectored-concat answers parts a h =
    let bufs = nonempty parts in
    let same = nonempty-concat parts in
    let done =
      send_loop-done answers bufs a (nonempty-Filled parts) (omega (arith, h, ap length same)) in
    let whole = send_loop-concat answers bufs in
    let wire = (send_loop answers bufs).0 in
    (
      sym (append-nil wire)
          ∙ ap (λ (left : List Bytes). wire ++ concat left) (sym done)
          ∙ whole
          ∙ same,
      done,
    )
