-- ===== src/Webhooks/Template/Names.antt =====
-- Which names of a YandexMachineTemplate its webhook admits.
use cluster_api_provider_yan.Prelude.{
  ℕ, zero, suc, ◌≤◌, String, Bool, true, false, ◌≡◌, ◌↔◌, refl, ap, none, arith,
}
use Prim.Native.Char.{Char, code, len_utf8, len_utf8_def, width}
use Prim.Native.String.{len}
use Prim.Native.String.len
use Prim.Native.Nat.{compare, Ordering}
use cluster_api_provider_yan.Prelude.Text.{all_chars}
use cluster_api_provider_yan.Prelude.Regex.{repeated, in_class, at_end, match_string}
use cluster_api_provider_yan.Api.Template.{YandexMachineTemplate}
use cluster_api_provider_yan.Webhooks.Verdicts.{admitted}
use cluster_api_provider_yan.Webhooks.Template.{
  name_regex, is_lower, is_lower_or_digit, is_inner_char, validate_create,
}

-- The first character of a text has a property; the last one of a text that goes on from `c`.
abbrev pub first_char : (ℕ → Bool) → String → Bool
first_char p String.[] = false
first_char p (String.◌∷◌ c _) = p (code c)

abbrev pub last_from : (ℕ → Bool) → Char → String → Bool
last_from p c String.[] = p (code c)
last_from p c (String.◌∷◌ d s) = last_from p d s

abbrev pub last_char : (ℕ → Bool) → String → Bool
last_char p String.[] = false
last_char p (String.◌∷◌ c s) = last_from p c s

inner_of : (c : ℕ) → is_lower_or_digit c ≡ true → is_inner_char c ≡ true
unfolding is_inner_char
inner_of c h = ground arith

abbrev char_count : String → ℕ
char_count String.[] = 0
char_count (String.◌∷◌ _ s) = suc (char_count s)

abbrev rest_matches : ℕ → String → Bool
rest_matches n = repeated n (in_class is_inner_char) (in_class is_lower_or_digit at_end)

rest_matches_empty : (n : ℕ) → rest_matches n "" ≡ false
rest_matches_empty zero = refl
rest_matches_empty (suc n) = refl

rest_matches_iff :
    (n : ℕ) (c : Char) (s : String)
    → (rest_matches n (String.◌∷◌ c s) ≡ true) ↔ (
        (char_count s ≤ n)
        × (all_chars is_inner_char (String.◌∷◌ c s) ≡ true)
        × (last_from is_lower_or_digit c s ≡ true))
rest_matches_iff zero c String.[] = ground (arith, inner_of (code c))
rest_matches_iff (suc n) c String.[] = ground (arith, inner_of (code c), rest_matches_empty n)
rest_matches_iff zero c (String.◌∷◌ d s) = ground arith
rest_matches_iff (suc n) c (String.◌∷◌ d s) = ground (arith, rest_matches_iff n d s)

one_byte : (c : Char) → is_inner_char (code c) ≡ true → len_utf8 c ≡ 1
unfolding is_inner_char is_lower_or_digit is_lower
one_byte c h =
    rw (len_utf8_def c) (ap (λ o. width o (compare (code c) 2048) (compare (code c) 65536)) below)
  where
    below : compare (code c) 128 ≡ Ordering.lt
    below = ground arith

len-char_count : (s : String) → all_chars is_inner_char s ≡ true → len s ≡ char_count s
len-char_count String.[] h = refl
len-char_count (String.◌∷◌ c s) h = rw (len.cons c s) (ground (arith, one_byte c, len-char_count s))

-- The names that the comment on the expression describes.
abbrev pub IsTemplateName : String → Type 0
IsTemplateName s =
    (1 ≤ len s)
    × (len s ≤ 57)
    × (first_char is_lower s ≡ true)
    × (all_chars is_inner_char s ≡ true)
    × (last_char is_lower_or_digit s ≡ true)

name_regex_iff : (s : String) → (match_string name_regex s ≡ true) ↔ IsTemplateName s
unfolding match_string is_inner_char is_lower_or_digit
name_regex_iff String.[] = ground arith
name_regex_iff (String.◌∷◌ c String.[]) = ground (arith, len-char_count (String.◌∷◌ c String.[]))
name_regex_iff (String.◌∷◌ c (String.◌∷◌ d s)) =
    ground (arith, len-char_count (String.◌∷◌ c (String.◌∷◌ d s)), rest_matches_iff 55 d s)

module _ {Metadata : Type 0} (t : YandexMachineTemplate Metadata) where
  -- A template is admitted exactly if the specification of its machines names no provider ID, and its
  -- name is 1 to 57 bytes long, starts with a lower-case letter, has only lower-case letters, digits
  -- and hyphens, and does not end with a hyphen.
  pub validate_create_admitted_iff :
      (validate_create t ≡ admitted)
      ↔ ((t.spec.template.spec.provider_id ≡ none) × IsTemplateName t.name)
  unfolding validate_create
  validate_create_admitted_iff = ground (arith, name_regex_iff t.name)
