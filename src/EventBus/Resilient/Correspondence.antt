-- ===== src/EventBus/Resilient/Correspondence.antt =====
-- The correspondence of a resilient bus (resilient_event_bus.py) with a plain memory bus that holds
-- the clients' handlers themselves, and that `on` and `off` keep it.
use sagittarius_engine.Prelude.{
  ℕ, ◌+◌, String, ◌≡◌, refl, ap, ◌∙◌, true, false, none, some, List, [], ◌∷◌, ◌++◌, map, arith,
  if◌then◌else◌, Bool-cases, inl, inr, subst, nat_eq, string_eq, elem, elem-append, All, All-append,
  All-map, get, has, get-put, get-remove, keys, Distinct, All-put, All-remove, ==_iff, ◌==◌,
  Option-cases, elem-All,
}
use sagittarius_engine.EventBus.Memory.{Bus, handlers_of, subscribe, unsubscribe}
use sagittarius_engine.EventBus.Memory.Subscribers.{
  keys-subscribe, keys-unsubscribe, elem-dropped, dropped, get_handlers-subscribe,
  get_handlers-unsubscribe,
}
use sagittarius_engine.EventBus.Resilient.{
  ResilientBus, Handler, wrapper, handler_eq, key_eq, Key, on_named, off_named, new,
}
use sagittarius_engine.EventBus.Resilient.Matching.{target, key, IsOwn, Stands}

map-append_one :
    (ws : List Handler) (w : Handler) → map target (ws ++ w ∷ []) ≡ map target ws ++ target w ∷ []
map-append_one [] w = refl
map-append_one (v ∷ ws) w = ap (◌∷◌ (target v)) (map-append_one ws w)

module _ (naming : String → String)
    (one_to_one : (i j : String) → (naming i == naming j) ≡ (i == j)) (p : Bus ℕ) (b : ResilientBus)
    (s : Stands naming p b) (n : String) (h : ℕ) where
  abbrev fresh : Handler
  fresh = wrapper b.next_serial (naming n) h

  -- No entry of the inner bus is the wrapper that `on` makes next.
  fresh_absent : (m : String) → elem fresh (handlers_of m b.inner) ≡ false
  fresh_absent m = elim (Bool-cases (elem fresh (handlers_of m b.inner))) [
    | inr absent ↦ absent
    | inl present ↦ absurd (
        omega (
          arith,
          (s.made m h fresh (elem-All _ fresh (handlers_of m b.inner) (s.recorded m) present)).1,
        ))
  ]

  on_known :
      elem h (handlers_of n p) ≡ true → Stands naming (subscribe n h p) (on_named (naming n) n h b)
  unfolding subscribe on_named
  on_known old = rw (old, s.known n h ∙ old) s

  module _ (absent : elem h (handlers_of n p) ≡ false) where
    no_entry : has (key naming n h) b.wrapper_map ≡ false
    no_entry = s.known n h ∙ absent

    inner-on :
        (m : String)
        → handlers_of m (on_named (naming n) n h b).inner
          ≡ (if n == m then handlers_of m b.inner ++ fresh ∷ [] else handlers_of m b.inner)
    unfolding on_named
    inner-on m = rw (no_entry, get_handlers-subscribe n m fresh b.inner, fresh_absent m)

    map-on :
        (k : Key)
        → get k (on_named (naming n) n h b).wrapper_map
          ≡ (if key naming n h == k then some fresh else get k b.wrapper_map)
    unfolding on_named
    map-on k = rw (no_entry) (get-put (key naming n h) k fresh b.wrapper_map)

    serial-on : (on_named (naming n) n h b).next_serial ≡ b.next_serial + 1
    unfolding on_named
    serial-on = rw no_entry

    plain-subscribe :
        (m : String)
        → handlers_of m (subscribe n h p)
          ≡ (if n == m then handlers_of m p ++ h ∷ [] else handlers_of m p)
    plain-subscribe m = ground (arith, get_handlers-subscribe n m h p, ==_iff n m, one_to_one n m)

    recorded_on :
        (m : String) (w : Handler)
        → get (key naming m (target w)) b.wrapper_map ≡ some w
        → get (key naming m (target w)) (on_named (naming n) n h b).wrapper_map ≡ some w
    recorded_on m w e = ground (
      arith,
      map-on (key naming m (target w)),
      ==_iff n m,
      one_to_one n m,
      ==_iff h (target w),
      no_entry,
    )

    abbrev Recorded : String → Handler → Type 0
    Recorded m w = get (key naming m (target w)) (on_named (naming n) n h b).wrapper_map ≡ some w

    Recorded-if :
        (m : String)
        → All
            (Recorded m)
            (if n == m then handlers_of m b.inner ++ fresh ∷ [] else handlers_of m b.inner)
    Recorded-if m =
        let old = All-map (recorded_on m) (handlers_of m b.inner) (s.recorded m) in
        elim (Bool-cases (n == m)) [
          | inl same ↦ rw same (
              All-append (Recorded m) (handlers_of m b.inner) (fresh ∷ []) old (
                ground (arith, map-on (key naming m h), ==_iff n m, one_to_one n m, ==_iff h h),
                tt,
              ))
          | inr other ↦ rw other old
        ]

    entries-on : All IsOwn (on_named (naming n) n h b).wrapper_map
    unfolding on_named
    entries-on = rw no_entry (All-put IsOwn (key naming n h) fresh b.wrapper_map s.entries refl)

    keys-on : Distinct (keys (on_named (naming n) n h b).inner)
    unfolding on_named
    keys-on = rw no_entry (keys-subscribe n fresh b.inner s.distinct)

    on_fresh : Stands naming (subscribe n h p) (on_named (naming n) n h b)
    on_fresh = record {
      targets = λ m.
          rw (inner-on m, plain-subscribe m)
            (ground (arith, map-append_one (handlers_of m b.inner) fresh, s.targets m));
      known = λ m g. ground (
        arith,
        map-on (key naming m g),
        plain-subscribe m,
        s.known m g,
        elem-append g (handlers_of m p) (h ∷ []),
        ==_iff n m,
        one_to_one n m,
        ==_iff h g,
      );
      recorded = λ m. rw (inner-on m) (Recorded-if m);
      made = λ m g w e. rw serial-on (
          ground
            (arith, map-on (key naming m g), s.made m g w, ==_iff n m, one_to_one n m, ==_iff h g));
      entries = entries-on;
      distinct = keys-on;
    }

  -- `on` of both buses keeps the correspondence.
  pub Stands-on : Stands naming (subscribe n h p) (on_named (naming n) n h b)
  Stands-on = elim (Bool-cases (elem h (handlers_of n p))) [
    | inl old ↦ on_known old
    | inr new ↦ on_fresh new
  ]

  unsubscribe_absent : elem h (handlers_of n p) ≡ false → unsubscribe n h p ≡ p
  unfolding unsubscribe
  unsubscribe_absent e = ground arith

  off_unknown :
      get (key naming n h) b.wrapper_map ≡ none
      → Stands naming (unsubscribe n h p) (off_named (naming n) n h b)
  unfolding off_named
  off_unknown e = rw (unsubscribe_absent (ground (arith, s.known n h)), e) s

  module _ (w : Handler) (found : get (key naming n h) b.wrapper_map ≡ some w) where
    inner-off :
        (m : String)
        → handlers_of m (off_named (naming n) n h b).inner
          ≡ (if n == m then dropped w (handlers_of m b.inner) else handlers_of m b.inner)
    unfolding off_named
    inner-off m = rw found (get_handlers-unsubscribe n m w b.inner)

    map-off :
        (k : Key)
        → get k (off_named (naming n) n h b).wrapper_map
          ≡ (if key naming n h == k then none else get k b.wrapper_map)
    unfolding off_named
    map-off k = rw found (get-remove (key naming n h) k b.wrapper_map)

    serial-off : (off_named (naming n) n h b).next_serial ≡ b.next_serial
    unfolding off_named
    serial-off = rw found

    abbrev Kept : Handler → Type 0
    Kept v = get (key naming n (target v)) b.wrapper_map ≡ some v

    targets-dropped :
        (ws : List Handler) → All Kept ws → map target (dropped w ws) ≡ dropped h (map target ws)
    targets-dropped [] a = refl
    targets-dropped (v ∷ ws) a =
        ground
          (arith, targets-dropped ws a.1, ==_iff v w, ==_iff (target v) h, (s.made n h w found).0)

    recorded-dropped :
        (ws : List Handler)
        → All Kept ws
        → All
            (λ v. get (key naming n (target v)) (off_named (naming n) n h b).wrapper_map ≡ some v)
            (dropped w ws)
    recorded-dropped [] a = tt
    recorded-dropped (v ∷ ws) a = ground (
      arith,
      recorded-dropped ws a.1,
      ==_iff v w,
      ==_iff h (target v),
      ==_iff n n,
      one_to_one n n,
      map-off (key naming n (target v)),
    )

    recorded_other :
        (m : String)
        → (n == m) ≡ false
        → (v : Handler) → get (key naming m (target v)) b.wrapper_map ≡ some v
        → get (key naming m (target v)) (off_named (naming n) n h b).wrapper_map ≡ some v
    recorded_other m ne v e = ground (arith, one_to_one n m, map-off (key naming m (target v)))

    abbrev RecordedOff : String → Handler → Type 0
    RecordedOff m v =
        get (key naming m (target v)) (off_named (naming n) n h b).wrapper_map ≡ some v

    Recorded-off :
        (m : String)
        → All
            (RecordedOff m)
            (if n == m then dropped w (handlers_of m b.inner) else handlers_of m b.inner)
    Recorded-off m = elim (Bool-cases (n == m)) [
      | inl same ↦ rw same (
          subst (λ j. All (RecordedOff j) (dropped w (handlers_of j b.inner))) ((==_iff n m).0 same)
            (recorded-dropped (handlers_of n b.inner) (s.recorded n)))
      | inr other ↦
          rw other (All-map (recorded_other m other) (handlers_of m b.inner) (s.recorded m))
    ]

    entries-off : All IsOwn (off_named (naming n) n h b).wrapper_map
    unfolding off_named
    entries-off = rw found (All-remove IsOwn (key naming n h) b.wrapper_map s.entries)

    keys-off : Distinct (keys (off_named (naming n) n h b).inner)
    unfolding off_named
    keys-off = rw found (keys-unsubscribe n w b.inner s.distinct)

    off_found : Stands naming (unsubscribe n h p) (off_named (naming n) n h b)
    off_found = record {
      targets = λ m.
          rw (inner-off m, get_handlers-unsubscribe n m h p)
            (ground (
              arith,
              ==_iff n m,
              one_to_one n m,
              targets-dropped (handlers_of n b.inner) (s.recorded n),
              s.targets n,
              s.targets m,
            ));
      known = λ m g. ground (
        arith,
        map-off (key naming m g),
        get_handlers-unsubscribe n m h p,
        s.known m g,
        elem-dropped h g (handlers_of m p),
        ==_iff n m,
        one_to_one n m,
        ==_iff h g,
        ==_iff g h,
      );
      recorded = λ m. rw (inner-off m) (Recorded-off m);
      made = λ m g v e. rw serial-off (ground (arith, map-off (key naming m g), s.made m g v));
      entries = entries-off;
      distinct = keys-off;
    }

  -- So does `off`.
  pub Stands-off : Stands naming (unsubscribe n h p) (off_named (naming n) n h b)
  Stands-off = elim (Option-cases (get (key naming n h) b.wrapper_map)) [
    | inl e ↦ off_unknown e
    | inr (w, e) ↦ off_found w e
  ]
