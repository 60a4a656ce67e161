-- ===== src/Scope/Cluster/Names.antt =====
-- The names that `generateName` and `GetLBName` give a load balancer.
use Prim.Native.String.{slice, len}
use text.Mathlib.TextLemmas.{append_cancel_right}
use cluster_api_provider_yan.Prelude.{subst}
use text.Mathlib.TextPositions.{slice-append_left, len-append}
use cluster_api_provider_yan.Prelude.{
  ◌<◌, String, ◌<>◌, ◌≡◌, ◌∙◌, sym, true, false, inl, inr, Bool-cases, ltb, arith,
}
use cluster_api_provider_yan.Prelude.Text.{
  all_chars, all_chars-append, all_chars-keep_chars, keep_chars_all,
}
use cluster_api_provider_yan.Kube.{Libraries}
use cluster_api_provider_yan.Scope.Cluster.{
  ClusterScope, name, is_name_char, clear_string, generate_name,
}

-- A SHA-256 digest has 64 hexadecimal digits, in two parts here: the first 16, and the others.
pub record IsDigest (digest : String) : Type 0 where
  pub front : String
  pub back : String
  pub parts : digest ≡ front <> back
  pub front_length : len front ≡ 16
  pub front_digits : all_chars is_name_char front ≡ true

front_of : {digest : String} (d : IsDigest digest) → slice digest 0 16 ≡ d.front
front_of d = rw d.parts (
    subst (λ n. slice (d.front <> d.back) 0 n ≡ d.front) d.front_length
      (slice-append_left d.front d.back))

-- The name that is made from a digest.
hashed : String → String
hashed front = "cluster-" <> (front <> "-api")

hashed_bounds :
    (front : String)
    → len front ≡ 16
    → all_chars is_name_char front ≡ true
    → (len (hashed front) < 64) × (all_chars is_name_char (hashed front) ≡ true)
unfolding hashed is_name_char
hashed_bounds front l a =
    (rw (len-append, len-append, l) (omega arith), rw (all_chars-append, all_chars-append, a))

module _ (libs : Libraries) (c : ClusterScope) where
  abbrev readable : String
  readable = clear_string (name c) <> "-api"

  readable_chars : all_chars is_name_char readable ≡ true
  unfolding clear_string
  readable_chars = rw (all_chars-append, all_chars-keep_chars)

  generate_name_short : ltb (len readable) 64 ≡ true → generate_name libs c ≡ readable
  unfolding generate_name
  generate_name_short h = rw h

  generate_name_long :
      (d : IsDigest (libs.sha256_hex (name c)))
      → ltb (len readable) 64 ≡ false
      → generate_name libs c ≡ hashed d.front
  unfolding generate_name hashed
  generate_name_long d h = rw (h, front_of d)

  -- Where the digest of the cluster's name is one, the generated name is shorter than 64 bytes and
  -- has only lower-case letters, digits and hyphens.
  pub generate_name_bounds :
      IsDigest (libs.sha256_hex (name c))
      → (len (generate_name libs c) < 64) × (all_chars is_name_char (generate_name libs c) ≡ true)
  generate_name_bounds d = elim (Bool-cases (ltb (len readable) 64)) [
    | inl short ↦ rw (generate_name_short short) (ground arith, readable_chars)
    | inr long ↦
        rw (generate_name_long d long) (hashed_bounds d.front d.front_length d.front_digits)
  ]

-- Two clusters whose names are made of lower-case letters, digits and hyphens, and are at most 59
-- bytes long, have the same generated name only if they have the same name.
pub generate_name_injective :
    (libs : Libraries) (a b : ClusterScope)
    → all_chars is_name_char (name a) ≡ true
    → all_chars is_name_char (name b) ≡ true
    → len (name a) < 60
    → len (name b) < 60
    → generate_name libs a ≡ generate_name libs b
    → name a ≡ name b
generate_name_injective libs a b pa pb la lb e =
    append_cancel_right (name a) (name b) "-api" (sym (kept a pa la) ∙ (e ∙ kept b pb lb))
  where
    kept :
        (c : ClusterScope)
        → all_chars is_name_char (name c) ≡ true
        → len (name c) < 60
        → generate_name libs c ≡ name c <> "-api"
    kept c p l =
        unfold generate_name clear_string in
        rw (keep_chars_all is_name_char (name c) p, len-append) (ground arith)
