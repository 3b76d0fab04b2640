-- ===== src/Workbench/ActionRegistry/Harmony.antt =====
-- The commands that an `ActionRegistry` has accepted, together.
use sagittarius_engine.Prelude.{
  ◌≤◌, ◌≡◌, refl, String, string_eq, Bool, true, false, ◌&&◌, Option, none, some, List, [], ◌∷◌,
  ◌++◌, length, ==_iff, elem, elem-All, keep, All, All-append, Bool-cases, Option-cases, inl, inr,
  Dict, put, keys, arith,
}
use sagittarius_engine.Workbench.ActionText.{Unicode}
use sagittarius_engine.Workbench.ActionDescriptor.{Qt, ActionDescriptor}
use sagittarius_engine.Workbench.ActionRegistry.{
  Entry, scopes_meet, bound_keys, refuse_conflicts, build, contribute, entries_after,
  contribute_all,
}
use sagittarius_engine.Workbench.ActionRegistry.Conflicts.{
  IsCompatible, refuse_conflicts-IsAdmissible,
}

-- Each command fits every one that was contributed before it.
abbrev pub IsHarmonious : Unicode → Dict String Entry → Type 0
IsHarmonious u [] = Unit
IsHarmonious u ((i, e) ∷ rest) =
    All (λ l. IsCompatible u l.1.descriptor l.1.keys e) rest × IsHarmonious u rest

put_absent :
    (i : String) (e : Entry) (d : Dict String Entry)
    → elem i (keys d) ≡ false
    → put i e d ≡ d ++ (i, e) ∷ []
unfolding put
put_absent i e [] h = refl
put_absent i e ((j, f) ∷ d) h = ground (arith, h, put_absent i e d)

IsHarmonious-append :
    (u : Unicode) (i : String) (e : Entry) (d : Dict String Entry)
    → All (λ f. IsCompatible u e.descriptor e.keys f.1) d
    → IsHarmonious u d
    → IsHarmonious u (d ++ (i, e) ∷ [])
IsHarmonious-append u i e [] fits h = (tt, tt)
IsHarmonious-append u i e ((j, f) ∷ d) fits h = (
  All-append (λ l. IsCompatible u l.1.descriptor l.1.keys f) d ((i, e) ∷ []) h.0 (fits.0, tt),
  IsHarmonious-append u i e d fits.1 h.1,
)

contribute-IsHarmonious :
    (qt : Qt) (u : Unicode) (d : ActionDescriptor) (entries : Dict String Entry)
    → IsHarmonious u entries
    → IsHarmonious u (entries_after (contribute qt u d entries) entries)
unfolding contribute
contribute-IsHarmonious qt u d entries h =
    let keys_of = bound_keys qt d.shortcut in
    elim (Option-cases (refuse_conflicts qt u d keys_of entries)) [
      | inl admitted ↦
          let a = (refuse_conflicts-IsAdmissible qt u d keys_of entries).0 admitted in
          rw (admitted, put_absent d.action_id (build d keys_of) entries a.new_id)
            (IsHarmonious-append u d.action_id (build d keys_of) entries a.compatible h)
      | inr (why, refused) ↦ rw refused h
    ]

pub contribute_all-IsHarmonious :
    (qt : Qt) (u : Unicode) (ds : List ActionDescriptor) (entries : Dict String Entry)
    → IsHarmonious u entries
    → IsHarmonious u (contribute_all qt u ds entries)
unfolding contribute_all
contribute_all-IsHarmonious qt u [] entries h = h
contribute_all-IsHarmonious qt u (d ∷ ds) entries h =
    contribute_all-IsHarmonious qt u ds (entries_after (contribute qt u d entries) entries)
      (contribute-IsHarmonious qt u d entries h)

-- A command that answers the key in the mode.
abbrev pub answers : String → String → String × Entry → Bool
answers mode key e = scopes_meet e.1.descriptor.surface_id (some mode) && elem key e.1.keys

shown_together :
    (a b : Option String) (mode : String)
    → scopes_meet a (some mode) ≡ true
    → scopes_meet b (some mode) ≡ true
    → scopes_meet a b ≡ true
shown_together none b mode h k = refl
shown_together (some a) none mode h k = refl
shown_together (some a) (some b) mode h k =
    ground (arith, ==_iff a mode, ==_iff b mode, ==_iff a b, h, k)

silent :
    (u : Unicode) (mode key : String) (e l : String × Entry)
    → IsCompatible u l.1.descriptor l.1.keys e.1
    → answers mode key e ≡ true
    → answers mode key l ≡ false
silent u mode key e l fits h = elim (Bool-cases (answers mode key l)) [
  | inr silent_one ↦ silent_one
  | inl too ↦
      let meet =
        shown_together e.1.descriptor.surface_id l.1.descriptor.surface_id mode (ground (arith, h))
          (ground (arith, too)) in
      let apart : elem key e.1.keys ≡ false =
        elem-All (λ k. elem k e.1.keys ≡ false) key l.1.keys (fits.no_shared_key meet)
          (ground (arith, too)) in
      absurd (cc (apart, both_true _ (elem key e.1.keys) h))
]
  where
    both_true : (b c : Bool) → (b && c) ≡ true → c ≡ true
    both_true true c h = h
    both_true false c h = absurd (cc)

all_silent :
    (u : Unicode) (mode key : String) (e : String × Entry) (rest : Dict String Entry)
    → All (λ l. IsCompatible u l.1.descriptor l.1.keys e.1) rest
    → answers mode key e ≡ true
    → keep (answers mode key) rest ≡ []
all_silent u mode key e [] fits h = refl
all_silent u mode key e (l ∷ rest) fits h =
    rw (silent u mode key e l fits.0 h) (all_silent u mode key e rest fits.1 h)

one_answers :
    (u : Unicode) (mode key : String) (entries : Dict String Entry)
    → IsHarmonious u entries
    → length (keep (answers mode key) entries) ≤ 1
one_answers u mode key [] h = omega arith
one_answers u mode key (e ∷ rest) h = elim (Bool-cases (answers mode key e)) [
  | inl there ↦ rw (there, all_silent u mode key e rest h.0 there) (omega arith)
  | inr silent_one ↦ rw silent_one (one_answers u mode key rest h.1)
]

-- Whatever commands are contributed, in whatever order and refused or not, in every mode a key
-- belongs to at most one of the commands that are there.
pub one_command_per_key :
    (qt : Qt) (u : Unicode) (ds : List ActionDescriptor) (mode key : String)
    → length (keep (answers mode key) (contribute_all qt u ds [])) ≤ 1
one_command_per_key qt u ds mode key =
    one_answers u mode key (contribute_all qt u ds []) (contribute_all-IsHarmonious qt u ds [] tt)
