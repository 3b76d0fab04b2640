-- ===== src/Audit/Masking/Secrets.antt =====
-- `_is_secret_key` and `_has_userinfo` of extensions/audit/contracts.py, against descriptions of their own.
use sagittarius_engine.Prelude.{
  ◌↔◌, ◌++◌, ℕ, ◌≡◌, refl, sym, ap, subst, String, string_eq, nat_eq, true, false, ◌||◌, Option,
  none, some, List, [], ◌∷◌, arith, ◌==◌, ==_iff, elem, Bool-cases, inl, inr,
}
use sagittarius_engine.Audit.Masking.{
  codes, contains, secret_key_patterns, any_in, partition, before, userinfo_in, has_userinfo,
}

-- Some pattern occurs in the key's lower case.
abbrev pub LooksSecret : (List ℕ → List ℕ) → String → Type 0
LooksSecret lower key =
    (p : String) × (elem p secret_key_patterns ≡ true)
    × (contains (codes p) (lower (codes key)) ≡ true)

-- What stands before the first `://` has no blank, and `@` stands behind it before any `/`.
abbrev pub HasCredentials : String → Type 0
HasCredentials value =
    (scheme : List ℕ) × (rest : List ℕ) × (user : List ℕ) × (tail : List ℕ) × (partition
        (codes "://") (codes value)
      ≡ some (scheme, rest))
    × (elem b' ' scheme ≡ false)
    × (rest ≡ user ++ b'@' ∷ tail)
    × (elem b'/' user ≡ false)

pub any_in-some :
    (ps : List String) (cs : List ℕ)
    → any_in ps cs ≡ true
    → (p : String) × (elem p ps ≡ true) × (contains (codes p) cs ≡ true)
any_in-some [] cs h = absurd (cc)
any_in-some (q ∷ ps) cs h = elim (Bool-cases (contains (codes q) cs)) [
  | inl here ↦ (q, ground (arith, ==_iff q q), here)
  | inr elsewhere ↦
      let (p, among, occurs) = any_in-some ps cs (ground arith) in (p, ground arith, occurs)
]

pub some-any_in :
    (ps : List String) (cs : List ℕ) (p : String)
    → elem p ps ≡ true
    → contains (codes p) cs ≡ true
    → any_in ps cs ≡ true
some-any_in [] cs p among occurs = absurd (cc)
some-any_in (q ∷ ps) cs p among occurs = elim (Bool-cases (q == p)) [
  | inl same ↦
      ground (arith, subst (λ r. contains (codes r) cs ≡ true) (sym ((==_iff q p).0 same)) occurs)
  | inr other ↦
      let later = some-any_in ps cs p (subst (λ b. (b || elem p ps) ≡ true) other among) occurs in
      ground arith
]

user_before :
    (rest : List ℕ)
    → elem b'@' (before b'/' rest) ≡ true
    → (user : List ℕ) × (tail : List ℕ) × (rest ≡ user ++ b'@' ∷ tail) × (elem b'/' user ≡ false)
user_before [] h = absurd (cc)
user_before (d ∷ ds) h = elim (Bool-cases (d == b'/')) [
  | inl slash ↦ absurd (ground arith)
  | inr no_slash ↦ elim (Bool-cases (b'@' == d)) [
    | inl at ↦ ([], ds, ap (λ c. c ∷ ds) (sym ((==_iff b'@' d).0 at)), refl)
    | inr not_at ↦
        let (user, tail, split, free) = user_before ds (ground arith) in
        (d ∷ user, tail, ap (◌∷◌ d) split, ground (arith, ==_iff d b'/', ==_iff b'/' d))
  ]
]

before_user :
    (user tail : List ℕ)
    → elem b'/' user ≡ false
    → elem b'@' (before b'/' (user ++ b'@' ∷ tail)) ≡ true
before_user [] tail free = refl
before_user (u ∷ user) tail free =
    ground (arith, before_user user tail, ==_iff u b'/', ==_iff b'/' u)

userinfo_found :
    (o : Option (List ℕ × List ℕ))
    → userinfo_in o ≡ true
    → (scheme : List ℕ) × (rest : List ℕ) × (user : List ℕ) × (tail : List ℕ) × (o
        ≡ some (scheme, rest))
      × (elem b' ' scheme ≡ false)
      × (rest ≡ user ++ b'@' ∷ tail)
      × (elem b'/' user ≡ false)
userinfo_found none h = absurd (cc)
userinfo_found (some (scheme, rest)) h =
    let (user, tail, split, free) = user_before rest (ground arith) in
    (scheme, rest, user, tail, refl, ground arith, split, free)

pub has_userinfo_iff : (value : String) → (has_userinfo value ≡ true) ↔ HasCredentials value
unfolding has_userinfo
has_userinfo_iff value = (
  λ h. userinfo_found (partition (codes "://") (codes value)) h,
  λ (scheme, rest, user, tail, cut, no_blank, split, free).
      rw (cut, no_blank, split) (before_user user tail free),
)
