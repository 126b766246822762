-- ===== src/Base/Text.antt =====
-- Texts as lists of code points, and the string methods that the modules share.
pub mod Start
use Prim.Native.Nat.{ℕ, zero, suc, ◌+◌, ◌/◌, ◌%◌}
use Prim.Native.Char.{code}
use Prim.Native.String.{String}
use mathlib.Core.Bool.{Bool, true, false, ◌&&◌}
use mathlib.Core.List.{List, [], ◌∷◌}
use mathlib.Core.Option.{Option, none, some}
use shard_glm_image.Base.Tests.{ltb, ◌==◌, if◌then◌else◌}

abbrev pub Text : Type 0
Text = List ℕ

abbrev pub codes : String → Text
codes String.[] = []
codes (String.◌∷◌ c s) = code c ∷ codes s

-- `text.startswith(sub)`
unfoldable pub starts_with : Text → Text → Bool
starts_with text [] = true
starts_with [] (b ∷ sub) = false
starts_with (a ∷ text) (b ∷ sub) = a == b && starts_with text sub

-- A position counted from one element earlier.
abbrev pub next : Option ℕ → Option ℕ
next none = none
next (some i) = some (suc i)

-- `text.find(sub)`; `none` for -1.
unfoldable pub find : Text → Text → Option ℕ
unfolding starts_with
find [] sub = if starts_with [] sub then some 0 else none
find (a ∷ text) sub =
    let rest = next (find text sub) in if starts_with (a ∷ text) sub then some 0 else rest

-- `not s.strip()`
unfoldable pub is_blank : (ℕ → Bool) → Text → Bool
is_blank is_space [] = true
is_blank is_space (c ∷ s) = is_space c && is_blank is_space s

-- `==` on texts.
unfoldable pub same_text : Text → Text → Bool
same_text [] [] = true
same_text [] (b ∷ t) = false
same_text (a ∷ s) [] = false
same_text (a ∷ s) (b ∷ t) = a == b && same_text s t

-- `str(n)` of a natural number; a quotient by 10 is smaller, so `suc n` is enough fuel.
unfoldable pub decimal_from : ℕ → ℕ → Text → Text
decimal_from zero n later = later
decimal_from (suc fuel) n later =
    let digits = (b'0' + n % 10) ∷ later in
    let more = decimal_from fuel (n / 10) digits in if ltb n 10 then digits else more

unfoldable pub decimal : ℕ → Text
unfolding decimal_from
decimal n = decimal_from (suc n) n []
