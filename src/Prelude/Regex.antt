-- ===== src/Prelude/Regex.antt =====
-- Go's regular expressions, as far as the program uses them: classes of characters, sequences,
-- repetitions up to a number, and optional groups, between `^` and `$`.
use Prim.Native.Char.{code}
use Prim.Native.Nat.{ℕ, zero, suc}
use Prim.Native.String.{String}
use mathlib.Core.Bool.{Bool, true, false, ◌&&◌, ◌||◌}

pub data Regex : Type 0 where
  class : (ℕ → Bool) → Regex
  seq : Regex → Regex → Regex
  up_to : ℕ → Regex → Regex
  optional : Regex → Regex

-- What is left of a text is tested by what follows.
abbrev Rest : Type 0
Rest = String → Bool

abbrev pub repeated : ℕ → (Rest → Rest) → Rest → Rest
repeated zero step next s = next s
repeated (suc n) step next s = next s || step (repeated n step next) s

abbrev pub in_class : (ℕ → Bool) → Rest → Rest
in_class p next String.[] = false
in_class p next (String.◌∷◌ c s) = p (code c) && next s

abbrev pub match_with : Regex → Rest → Rest
match_with (class p) next s = in_class p next s
match_with (seq r q) next s = match_with r (match_with q next) s
match_with (up_to n r) next s = repeated n (match_with r) next s
match_with (optional r) next s = next s || match_with r next s

abbrev pub at_end : Rest
at_end String.[] = true
at_end (String.◌∷◌ _ _) = false

-- `MatchString` of `^r$`
unfoldable pub match_string : Regex → String → Bool
match_string r s = match_with r at_end s
