-- ===== src/Kernel/ExtensionSort/Fuel.antt =====
-- The depth of the recursion of `dfs`: the names that are not being visited.
use sagittarius_engine.Prelude.{
  ℕ, ◌≤◌, ◌<◌, ◌≡◌, String, string_eq, true, false, not, List, [], ◌∷◌, elem, keep, length, arith,
  ==_iff,
}

-- How many of the keys are not in `path`.
abbrev pub room : List String → List String → ℕ
room keys path = length (keep (λ k. not (elem k path)) keys)

room-cons-le : (keys path : List String) (n : String) → room keys (n ∷ path) ≤ room keys path
room-cons-le [] path n = omega arith
room-cons-le (k ∷ keys) path n = ground (arith, room-cons-le keys path n)

-- A key that is added to the path leaves less room.
pub room-cons-lt :
    (keys path : List String) (n : String)
    → elem n keys ≡ true
    → elem n path ≡ false
    → room keys (n ∷ path) < room keys path
room-cons-lt [] path n m a = absurd (cc)
room-cons-lt (k ∷ keys) path n m a =
    ground (arith, room-cons-lt keys path n, room-cons-le keys path n, ==_iff k n, ==_iff n k)

pub room-le : (keys path : List String) → room keys path ≤ length keys
room-le [] path = omega arith
room-le (k ∷ keys) path = ground (arith, room-le keys path)
