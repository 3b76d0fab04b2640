-- ===== src/Runtime/TaskManager/Invariant.antt =====
-- What every operation of a `TaskManager` keeps: the finished identities are those of the tasks that
-- ended or were refused, each once, and no others.
use sagittarius_engine.Prelude.{
  ℕ, suc, ◌+◌, ◌≤◌, ◌<◌, ◌≡◌, refl, sym, ap, subst, ◌∙◌, nat_eq, true, false, Option, none, some,
  List, [], ◌∷◌, ◌++◌, length, length-append, ltb, ◌==◌, ==_iff, ==_refl, elem, append-Distinct,
  elem-All, if◌then◌else◌, Bool-cases, inl, inr, Dict, get, put, remove, keys, All, All-append,
  put-Distinct, get-put, get-remove, get_absent, arith,
}
use sagittarius_engine.Runtime.TaskManager.{BackgroundTask, drop_oldest}
use sagittarius_engine.Runtime.TaskManager.Counting.{
  count, weight_at, count-put, count-remove, remove-Distinct, Below-put, Below-remove, Below-suc,
  Below-absent,
}
use sagittarius_engine.Runtime.TaskManager.Settled.{
  has_settled, IsSettled, settled_weight, IsSound, settled_of,
}

IsSettled-put :
    (i : ℕ) (t : BackgroundTask) (tasks : Dict ℕ BackgroundTask) (finished : List ℕ)
    → elem i finished ≡ false
    → All (λ k. IsSettled (get k tasks)) finished
    → All (λ k. IsSettled (get k (put i t tasks))) finished
IsSettled-put i t tasks [] a h = tt
IsSettled-put i t tasks (k ∷ ks) a h = (
  subst (λ o. IsSettled o) (sym (get-put i k t tasks ∙ ground (arith, ==_iff k i, ==_iff i k))) h.0,
  IsSettled-put i t tasks ks (ground arith) h.1,
)

IsSettled-put-IsSettled :
    (i : ℕ) (t : BackgroundTask) (tasks : Dict ℕ BackgroundTask) (finished : List ℕ)
    → has_settled t.phase ≡ true
    → All (λ k. IsSettled (get k tasks)) finished
    → All (λ k. IsSettled (get k (put i t tasks))) finished
IsSettled-put-IsSettled i t tasks [] a h = tt
IsSettled-put-IsSettled i t tasks (k ∷ ks) a h = (
  elim (Bool-cases (i == k)) [
    | inl same ↦ rw (get-put i k t tasks, same) a
    | inr other ↦ rw (get-put i k t tasks, other) h.0
  ],
  IsSettled-put-IsSettled i t tasks ks a h.1,
)

IsSettled-remove :
    (i : ℕ) (tasks : Dict ℕ BackgroundTask) (finished : List ℕ)
    → elem i finished ≡ false
    → All (λ k. IsSettled (get k tasks)) finished
    → All (λ k. IsSettled (get k (remove i tasks))) finished
IsSettled-remove i tasks [] a h = tt
IsSettled-remove i tasks (k ∷ ks) a h = (
  subst (λ o. IsSettled o) (sym (get-remove i k tasks ∙ ground (arith, ==_iff k i, ==_iff i k)))
      h.0,
  IsSettled-remove i tasks ks (ground arith) h.1,
)

below_of :
    (i next : ℕ) (t : BackgroundTask) (tasks : Dict ℕ BackgroundTask)
    → All (λ k. k < next) (keys tasks)
    → get i tasks ≡ some t
    → i < next
below_of i next t tasks h g =
    elem-All (λ k. k < next) i (keys tasks) h (ground (arith, get_absent i tasks))

-- A task changes and stays settled or open.
pub IsSound-put :
    (i : ℕ) (t u : BackgroundTask) (tasks : Dict ℕ BackgroundTask) (finished : List ℕ) (next : ℕ)
    → get i tasks ≡ some t
    → has_settled u.phase ≡ has_settled t.phase
    → IsSound tasks finished next
    → IsSound (put i u tasks) finished next
IsSound-put i t u tasks finished next g same s = record {
  distinct = put-Distinct i u tasks s.distinct;
  below = Below-put next i u tasks (below_of i next t tasks s.below g) s.below;
  once = s.once;
  settled = elim (Bool-cases (has_settled t.phase)) [
    | inl closed ↦ IsSettled-put-IsSettled i u tasks finished (same ∙ closed) s.settled
    | inr open_task ↦
        IsSettled-put i u tasks finished (settled_of i t tasks finished s.settled g open_task)
          s.settled
  ];
  counted =
      let change : count settled_weight (put i u tasks) + settled_weight t
          ≡ count settled_weight tasks + settled_weight u =
        subst
          (λ o.
            count settled_weight (put i u tasks) + weight_at settled_weight o
            ≡ count settled_weight tasks + settled_weight u)
          g (count-put settled_weight i u tasks) in
      omega (arith, change, s.counted, ap {B = ℕ} (λ b. if b then 1 else 0) same);
}

pub get-put_self :
    (i : ℕ) (u : BackgroundTask) (tasks : Dict ℕ BackgroundTask) → get i (put i u tasks) ≡ some u
get-put_self i u tasks = rw (get-put i i u tasks, ==_refl i) refl

-- An open task settles and its identity is appended.
pub IsSound-append :
    (i : ℕ) (t u : BackgroundTask) (tasks : Dict ℕ BackgroundTask) (finished : List ℕ) (next : ℕ)
    → get i tasks ≡ some t
    → has_settled t.phase ≡ false
    → has_settled u.phase ≡ true
    → IsSound tasks finished next
    → IsSound (put i u tasks) (finished ++ i ∷ []) next
IsSound-append i t u tasks finished next g open_task closed s =
    let new_one = settled_of i t tasks finished s.settled g open_task in
    record {
      distinct = put-Distinct i u tasks s.distinct;
      below = Below-put next i u tasks (below_of i next t tasks s.below g) s.below;
      once = append-Distinct finished i s.once new_one;
      settled =
          All-append (λ k. IsSettled (get k (put i u tasks))) finished (i ∷ [])
            (IsSettled-put i u tasks finished new_one s.settled)
            (subst (λ o. IsSettled o) (sym (get-put_self i u tasks)) closed, tt);
      counted =
          let change : count settled_weight (put i u tasks) + settled_weight t
              ≡ count settled_weight tasks + settled_weight u =
            subst
              (λ o.
                count settled_weight (put i u tasks) + weight_at settled_weight o
                ≡ count settled_weight tasks + settled_weight u)
              g (count-put settled_weight i u tasks) in
          let zero_before : settled_weight t ≡ 0 = rw open_task in
          let one_after : settled_weight u ≡ 1 = rw closed in
          omega (arith, change, zero_before, one_after, s.counted, length-append finished (i ∷ []));
    }

-- A new task that is open.
pub IsSound-new :
    (u : BackgroundTask) (tasks : Dict ℕ BackgroundTask) (finished : List ℕ) (next : ℕ)
    → has_settled u.phase ≡ false
    → IsSound tasks finished next
    → IsSound (put next u tasks) finished (suc next)
IsSound-new u tasks finished next open_task s =
    let absent = get_absent next tasks (Below-absent next (keys tasks) s.below) in
    record {
      distinct = put-Distinct next u tasks s.distinct;
      below = Below-put (suc next) next u tasks (omega arith) (Below-suc next (keys tasks) s.below);
      once = s.once;
      settled =
          IsSettled-put next u tasks finished (unused next tasks finished s.settled absent)
            s.settled;
      counted =
          let change : count settled_weight (put next u tasks) + 0
              ≡ count settled_weight tasks + settled_weight u =
            subst
              (λ o.
                count settled_weight (put next u tasks) + weight_at settled_weight o
                ≡ count settled_weight tasks + settled_weight u)
              absent (count-put settled_weight next u tasks) in
          let zero_after : settled_weight u ≡ 0 = rw open_task in
          omega (arith, change, zero_after, s.counted);
    }
  where
    unused :
        (i : ℕ) (d : Dict ℕ BackgroundTask) (xs : List ℕ)
        → All (λ k. IsSettled (get k d)) xs
        → get i d ≡ none
        → elem i xs ≡ false
    unused i d xs h g = elim (Bool-cases (elem i xs)) [
      | inl there ↦
          absurd (subst (λ o. IsSettled o) g (elem-All (λ k. IsSettled (get k d)) i xs h there))
      | inr gone ↦ gone
    ]

-- The clean-up keeps the invariant, the bound, and every open task.
pub record Cleaned (limit : ℕ) (tasks : Dict ℕ BackgroundTask) (next : ℕ)
    (r : List ℕ × Dict ℕ BackgroundTask) : Type 0 where
  pub sound : IsSound r.1 r.0 next
  pub bounded : length r.0 ≤ limit
  pub kept :
      (w : BackgroundTask → ℕ)
      → ((t : BackgroundTask) → has_settled t.phase ≡ true → w t ≡ 0)
      → count w r.1 ≡ count w tasks
  pub open_kept :
      (i : ℕ) (t : BackgroundTask)
      → get i tasks ≡ some t
      → has_settled t.phase ≡ false
      → get i r.1 ≡ some t

-- A task that has settled is released with its identity, the first one.
IsSound-remove :
    (i : ℕ) (is : List ℕ) (tasks : Dict ℕ BackgroundTask) (next : ℕ)
    → IsSound tasks (i ∷ is) next
    → IsSound (remove i tasks) is next
IsSound-remove i is tasks next s = record {
  distinct = remove-Distinct i tasks s.distinct;
  below = Below-remove next i tasks s.below;
  once = s.once.1;
  settled = IsSettled-remove i tasks is s.once.0 s.settled.1;
  counted = omega (
    arith,
    count-remove settled_weight i tasks s.distinct,
    s.counted,
    settled_weight_at (get i tasks) s.settled.0,
  );
}
  where
    settled_weight_at : (o : Option BackgroundTask) → IsSettled o → weight_at settled_weight o ≡ 1
    settled_weight_at none h = absurd h
    settled_weight_at (some t) h = rw h refl

-- A weight that settled tasks do not have.
weightless :
    (w : BackgroundTask → ℕ) (o : Option BackgroundTask)
    → ((t : BackgroundTask) → has_settled t.phase ≡ true → w t ≡ 0)
    → IsSettled o
    → weight_at w o ≡ 0
weightless w none none_settled h = absurd h
weightless w (some t) none_settled h = none_settled t h

others_kept :
    (i k : ℕ) (t : BackgroundTask) (tasks : Dict ℕ BackgroundTask)
    → IsSettled (get i tasks)
    → get k tasks ≡ some t
    → has_settled t.phase ≡ false
    → get k (remove i tasks) ≡ some t
others_kept i k t tasks h g open_task = elim (Bool-cases (i == k)) [
  | inl same ↦
      let closed = subst (λ o. IsSettled o) (ap (λ j. get j tasks) ((==_iff i k).0 same) ∙ g) h in
      absurd (cc (open_task, closed))
  | inr other ↦ rw (get-remove i k tasks, other) g
]

pub drop_oldest-Cleaned :
    (limit : ℕ) (finished : List ℕ) (tasks : Dict ℕ BackgroundTask) (next : ℕ)
    → IsSound tasks finished next
    → Cleaned limit tasks next (drop_oldest limit finished tasks)
unfolding drop_oldest
drop_oldest-Cleaned limit [] tasks next s = record {
  sound = s;
  bounded = omega arith;
  kept = λ w none_settled. refl;
  open_kept = λ k t g open_task. g;
}
drop_oldest-Cleaned limit (i ∷ is) tasks next s = elim (Bool-cases (ltb limit (length (i ∷ is)))) [
  | inl above ↦
      let rest =
        drop_oldest-Cleaned limit is (remove i tasks) next (IsSound-remove i is tasks next s) in
      rw above record {
        sound = rest.sound;
        bounded = rest.bounded;
        kept = λ w none_settled.
            rest.kept w none_settled
            ∙ omega (
              arith,
              count-remove w i tasks s.distinct,
              weightless w (get i tasks) none_settled s.settled.0,
            );
        open_kept = λ k t g open_task.
            rest.open_kept k t (others_kept i k t tasks s.settled.0 g open_task) open_task;
      }
  | inr within ↦ rw within record {
    sound = s;
    bounded = ground (arith, within);
    kept = λ w none_settled. refl;
    open_kept = λ k t g open_task. g;
  }
]
