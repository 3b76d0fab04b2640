-- ===== src/Audit/Masking/Disclosing.antt =====
-- What the entries of `mask_config` of extensions/audit/contracts.py disclose.
use sagittarius_engine.Prelude.{
  ◌↔◌, ◌⊎◌, ℕ, ◌≡◌, refl, ap, String, string_eq, nat_eq, Bool, true, false, not, ◌&&◌, Option, none,
  some, List, [], ◌∷◌, map, arith, if◌then◌else◌, elem, Distinct, All, Bool-cases, inl, inr, Dict,
  keys,
}
use sagittarius_engine.Audit.Json.{Json, text, get, text_or_null, get-put_some, or_else-none}
use sagittarius_engine.Audit.ConfigEntry
use sagittarius_engine.Audit.ConfigEntry.{ConfigEntry, IsMasked}
use sagittarius_engine.Audit.Masking.{
  codes, secret_key_patterns, is_secret_key, sorted, rendered, is_secret, entry, mask_config,
  elem-sorted, sorted-Distinct,
}
use sagittarius_engine.Audit.Masking.Secrets.{
  LooksSecret, HasCredentials, any_in-some, some-any_in, has_userinfo_iff,
}

hidden_value :
    (hidden : Bool) (s : String)
    → ◌≡◌ {A = Option Json}
        (if hidden then none else some (text_or_null (if hidden then none else some s)))
        (if hidden then none else some (text s))
hidden_value true s = refl
hidden_value false s = refl

module _ {V : Type 0} (lower : List ℕ → List ℕ) (str : V → String) (values : Dict String (Option V))
    (reveal : Bool) (sources : Dict String String) where
  keys-entries :
      (ks : List String) → map (λ c. c.key) (map (entry lower str values reveal sources) ks) ≡ ks
  unfolding entry
  keys-entries [] = refl
  keys-entries (k ∷ ks) = ap (◌∷◌ k) (keys-entries ks)

  -- What an entry says, and what its dict on the wire gives away.
  abbrev pub Discloses : ConfigEntry → Type 0
  Discloses c =
      ((c.masked ≡ true) ↔ (
        (reveal ≡ false)
        × (LooksSecret lower c.key ⊎ HasCredentials (rendered lower str values c.key))))
      × (get "value" (ConfigEntry.to_dict c)
          ≡ (if c.masked then none else some (text (rendered lower str values c.key))))
      × IsMasked c

  is_secret-cases :
      (k : String)
      → is_secret lower str values k ≡ true
      → LooksSecret lower k ⊎ HasCredentials (rendered lower str values k)
  unfolding is_secret_key
  is_secret-cases k h = elim (Bool-cases (is_secret_key lower k)) [
    | inl by_name ↦ inl (any_in-some secret_key_patterns (lower (codes k)) by_name)
    | inr not_by_name ↦ inr ((has_userinfo_iff (rendered lower str values k)).0 (ground arith))
  ]

  cases-is_secret :
      (k : String)
      → LooksSecret lower k ⊎ HasCredentials (rendered lower str values k)
      → is_secret lower str values k ≡ true
  unfolding is_secret_key
  cases-is_secret k (inl (p, among, occurs)) =
      let by_name = some-any_in secret_key_patterns (lower (codes k)) p among occurs in ground arith
  cases-is_secret k (inr held) =
      let by_value = (has_userinfo_iff (rendered lower str values k)).1 held in ground arith

  entry-Discloses : (k : String) → Discloses (entry lower str values reveal sources k)
  unfolding entry ConfigEntry.to_dict get
  entry-Discloses k = (
    (
      λ masked. (ground arith, is_secret-cases k (ground arith)),
      λ (hidden, secret). let is = cases-is_secret k secret in ground arith,
    ),
    simp (get-put_some, or_else-none)
        (hidden_value (is_secret lower str values k && not reveal) (rendered lower str values k)),
    ground arith,
  )

  entries-Disclose :
      (ks : List String) → All Discloses (map (entry lower str values reveal sources) ks)
  entries-Disclose [] = tt
  entries-Disclose (k ∷ ks) = (entry-Discloses k, entries-Disclose ks)

  -- `mask_config` gives one entry for each key of the mapping and no others. An entry is masked
  -- exactly when nothing is to be revealed and the lower case of its key contains one of the patterns
  -- or its value has, before the first `://`, no blank and, behind it, an `@` before any `/`. The dict of a masked entry has no value; that of any other has the
  -- rendered value. So each entry can be read back as it was.
  pub mask_config-Discloses :
      Distinct (keys values)
      → All Discloses (mask_config lower str values reveal sources)
        × Distinct (map (λ c. c.key) (mask_config lower str values reveal sources))
        × ((k : String)
            → elem k (map (λ c. c.key) (mask_config lower str values reveal sources))
              ≡ elem k (keys values))
  unfolding mask_config
  mask_config-Discloses d = (
    entries-Disclose (sorted (keys values)),
    rw keys-entries (sorted-Distinct (keys values) d),
    λ k. rw keys-entries (elem-sorted k (keys values)),
  )
