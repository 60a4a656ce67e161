-- ===== src/Prelude/Text.antt =====
-- Go's strings as native texts: tests of characters and the functions of package `strings`.
use Prim.Native.Char.{code}
use Prim.Native.Nat.{ℕ}
use Prim.Native.String.{String, slice, len, ◌++◌}
use mathlib.Core.Path.{◌≡◌, refl}
use mathlib.Core.Bool.{Bool, true, false, ◌&&◌}
use mathlib.Core.List.{List, [], ◌∷◌}
use native.Mathlib.Omega.{arith}
use text.Mathlib.Text.{◌==◌, starts_with}
use text.Mathlib.TextEquality.{eq_iff}
use mathlib.Core.Logic.{◌≢◌}
use text.Mathlib.TextLemmas.{nil-append, cons-append}
use text.Mathlib.TextPositions.{starts_with-append, slice-append_right, len-append}
use cluster_api_provider_yan.Prelude.Tests.{if◌then◌else◌}

-- `strings.TrimPrefix`
unfoldable pub trim_prefix : String → String → String
trim_prefix s prefix = if starts_with s prefix then slice s (len prefix) (len s) else s

pub trim_prefix-append : (prefix s : String) → trim_prefix (prefix ++ s) prefix ≡ s
unfolding trim_prefix
trim_prefix-append prefix s = rw (starts_with-append, len-append) (slice-append_right prefix s)

-- `strings.Join(parts, "")`
unfoldable pub join : List String → String
join [] = ""
join (part ∷ parts) = part ++ join parts

-- Every character has the property.
abbrev pub all_chars : (ℕ → Bool) → String → Bool
all_chars p String.[] = true
all_chars p (String.◌∷◌ c s) = p (code c) && all_chars p s

-- The characters that have the property, in order.
unfoldable pub keep_chars : (ℕ → Bool) → String → String
keep_chars p String.[] = String.[]
keep_chars p (String.◌∷◌ c s) =
    let rest = keep_chars p s in if p (code c) then String.◌∷◌ c rest else rest

-- Texts that differ fail the test.
pub ne_test : (s t : String) → s ≢ t → (s == t) ≡ false
ne_test s t h = ground (arith, eq_iff s t)

module _ (p : ℕ → Bool) where
  pub all_chars-append : (s t : String) → all_chars p (s ++ t) ≡ (all_chars p s && all_chars p t)
  all_chars-append String.[] t = rw nil-append
  all_chars-append (String.◌∷◌ c s) t = rw cons-append (ground (arith, all_chars-append s t))

  -- What is kept has the property.
  pub all_chars-keep_chars : (s : String) → all_chars p (keep_chars p s) ≡ true
  unfolding keep_chars
  all_chars-keep_chars String.[] = refl
  all_chars-keep_chars (String.◌∷◌ c s) = ground (arith, all_chars-keep_chars s)

  -- Where every character has the property, all are kept.
  pub keep_chars_all : (s : String) → all_chars p s ≡ true → keep_chars p s ≡ s
  unfolding keep_chars
  keep_chars_all String.[] h = refl
  keep_chars_all (String.◌∷◌ c s) h = ground (arith, keep_chars_all s)
