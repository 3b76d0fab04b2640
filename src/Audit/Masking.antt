-- ===== src/Audit/Masking.antt =====
-- `mask_config` of extensions/audit/contracts.py and what it asks of a key and of a value. `str` of a
-- value and `lower` of a string are parameters.
pub mod Secrets
pub mod Disclosing
use Prim.Native.Char.{code}
use sagittarius_engine.Prelude.{
  ◌↔◌, ◌⊎◌, ◌++◌, ℕ, ◌+◌, ◌≡◌, refl, sym, ap, ◌∙◌, subst, String, string_eq, nat_eq, Bool, true,
  false, not, ◌&&◌, ◌||◌, Option, none, some, List, [], ◌∷◌, map, arith, leb, ◌==◌, ==_iff,
  if◌then◌else◌, elem, Distinct, All, Bool-cases, inl, inr, Dict, keys,
}
use sagittarius_engine.Prelude
use sagittarius_engine.Audit.Json.{Json, text, get, text_or_null, get-put_some, or_else-none}
use sagittarius_engine.Audit.ConfigEntry
use sagittarius_engine.Audit.ConfigEntry.{ConfigEntry, IsMasked}

abbrev pub codes : String → List ℕ
codes String.[] = []
codes (String.◌∷◌ c s) = code c ∷ codes s

abbrev pub begins : List ℕ → List ℕ → Bool
begins [] cs = true
begins (w ∷ ws) [] = false
begins (w ∷ ws) (c ∷ cs) = w == c && begins ws cs

-- `word in text`.
abbrev pub contains : List ℕ → List ℕ → Bool
contains ws [] = begins ws []
contains ws (c ∷ cs) = begins ws (c ∷ cs) || contains ws cs

abbrev pub secret_key_patterns : List String
secret_key_patterns = "secret" ∷ "token" ∷ "password" ∷ "key" ∷ "dsn" ∷ "credential" ∷ []

abbrev pub any_in : List String → List ℕ → Bool
any_in [] cs = false
any_in (p ∷ ps) cs = contains (codes p) cs || any_in ps cs

unfoldable pub is_secret_key : (List ℕ → List ℕ) → String → Bool
is_secret_key lower key = any_in secret_key_patterns (lower (codes key))

abbrev drop_prefix : List ℕ → List ℕ → List ℕ
drop_prefix [] cs = cs
drop_prefix (w ∷ ws) [] = []
drop_prefix (w ∷ ws) (c ∷ cs) = drop_prefix ws cs

-- `text.partition(separator)`, if the separator is found.
abbrev pub partition : List ℕ → List ℕ → Option (List ℕ × List ℕ)
partition separator [] = none
partition separator (c ∷ cs) =
    let rest = partition separator cs in
    if begins separator (c ∷ cs)
    then some ([], drop_prefix separator (c ∷ cs))
    else elim rest [ none ↦ none | some (front, back) ↦ some (c ∷ front, back) ]

-- `text.split(c, 1)[0]`.
abbrev pub before : ℕ → List ℕ → List ℕ
before c [] = []
before c (d ∷ ds) = let rest = before c ds in if d == c then [] else d ∷ rest

abbrev pub userinfo_in : Option (List ℕ × List ℕ) → Bool
userinfo_in none = false
userinfo_in (some (scheme, rest)) = not (elem b' ' scheme) && elem b'@' (before b'/' rest)

unfoldable pub has_userinfo : String → Bool
has_userinfo value = userinfo_in (partition (codes "://") (codes value))

-- Python's order of strings.
abbrev pub le_codes : List ℕ → List ℕ → Bool
le_codes [] ds = true
le_codes (c ∷ cs) [] = false
le_codes (c ∷ cs) (d ∷ ds) = not (leb d c) || (c == d && le_codes cs ds)

abbrev insert_key : String → List String → List String
insert_key k [] = k ∷ []
insert_key k (j ∷ js) =
    let rest = insert_key k js in if le_codes (codes k) (codes j) then k ∷ (j ∷ js) else j ∷ rest

unfoldable pub sorted : List String → List String
sorted [] = []
sorted (k ∷ ks) = insert_key k (sorted ks)

module _ {V : Type 0} (lower : List ℕ → List ℕ) (str : V → String) where
  -- `"" if raw is None else str(raw)` of `values[key]`.
  unfoldable pub rendered : Dict String (Option V) → String → String
  rendered values key = elim (Prelude.get key values) [
    | some (some raw) ↦ str raw
    | some none ↦ ""
    | none ↦ ""
  ]

  abbrev pub is_secret : Dict String (Option V) → String → Bool
  is_secret values key = is_secret_key lower key || has_userinfo (rendered values key)

  unfoldable pub entry : Dict String (Option V) → Bool → Dict String String → String → ConfigEntry
  entry values reveal sources key =
      let masked = is_secret values key && not reveal in
      record {
        key = key;
        source = elim (Prelude.get key sources) [ none ↦ "" | some s ↦ s ];
        value = if masked then none else some (rendered values key);
        masked = masked;
      }

  unfoldable pub mask_config : Dict String (Option V) → Bool → Dict String String → List ConfigEntry
  mask_config values reveal sources = map (entry values reveal sources) (sorted (keys values))

elem-insert_key :
    (k j : String) (ks : List String) → elem j (insert_key k ks) ≡ (k == j || elem j ks)
elem-insert_key k j [] = refl
elem-insert_key k j (i ∷ ks) = ground (arith, elem-insert_key k j ks)

insert_key-Distinct :
    (k : String) (ks : List String) → elem k ks ≡ false → Distinct ks → Distinct (insert_key k ks)
insert_key-Distinct k [] a d = (refl, tt)
insert_key-Distinct k (j ∷ ks) a d =
    ground (arith, insert_key-Distinct k ks, elem-insert_key k j ks, ==_iff k j, ==_iff j k)

pub elem-sorted : (j : String) (ks : List String) → elem j (sorted ks) ≡ elem j ks
unfolding sorted
elem-sorted j [] = refl
elem-sorted j (k ∷ ks) = elem-insert_key k j (sorted ks) ∙ ap (λ b. k == j || b) (elem-sorted j ks)

pub sorted-Distinct : (ks : List String) → Distinct ks → Distinct (sorted ks)
unfolding sorted
sorted-Distinct [] d = tt
sorted-Distinct (k ∷ ks) d =
    insert_key-Distinct k (sorted ks) (elem-sorted k ks ∙ d.0) (sorted-Distinct ks d.1)
