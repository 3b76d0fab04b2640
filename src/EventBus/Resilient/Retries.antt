-- ===== src/EventBus/Resilient/Retries.antt =====
-- What resilient_event_bus.py does with a handler that fails, and with the dead-letter queue.
use sagittarius_engine.Prelude.{
  ℕ, zero, suc, ◌+◌, ◌≤◌, ◌<◌, String, ◌≡◌, refl, ap, sym, ◌∙◌, Bool, true, false, List, [], ◌∷◌,
  ◌++◌, map, length, append_assoc, append-nil, arith, Bool-cases, inl, inr, ◌⊎◌, subst,
}
use sagittarius_engine.EventBus.Resilient.{
  ResilientBus, DeadLetter, attempts, reprocess_each, reprocess,
}

module _ (fails : ℕ → ℕ → ℕ → Bool) (clock : ℕ → ℕ) (event : String) (payload handler : ℕ) where
  -- A handler that fails n times, n at most `max_retries`, and then succeeds is called n + 1 times,
  -- and leaves no dead letter and no report.
  pub attempts_succeeds :
      (n left : ℕ) (b : ResilientBus)
      → n ≤ left
      → ((i : ℕ) → i < n → fails handler payload (b.calls + i) ≡ true)
      → fails handler payload (b.calls + n) ≡ false
      → attempts fails clock left event payload handler b ≡ record b { calls = b.calls + n + 1 }
  unfolding attempts
  attempts_succeeds zero zero b h before last =
      let here : b.calls + 0 ≡ b.calls = omega arith in
      let first : fails handler payload b.calls ≡ false = rw here at last in rw (first, here)
  attempts_succeeds zero (suc left) b h before last =
      let here : b.calls + 0 ≡ b.calls = omega arith in
      let first : fails handler payload b.calls ≡ false = rw here at last in rw (first, here)
  attempts_succeeds (suc n) zero b h before last = absurd (omega arith)
  attempts_succeeds (suc n) (suc left) b h before last =
      let b' : ResilientBus = record b { calls = b.calls + 1 } in
      let here : b.calls + 0 ≡ b.calls = omega arith in
      let later : (i : ℕ) → b.calls + 1 + i ≡ b.calls + suc i = λ i. omega arith in
      let first : fails handler payload b.calls ≡ true = rw here at (before 0 (omega arith)) in
      rw first (
        attempts_succeeds n left b' (omega arith)
          (λ i lt. rw (later i) (before (suc i) (omega arith))) (rw (later n) last)
        ∙ ap (λ (c : ℕ). record b { calls = c + 1 }) (later n))

  -- The bus when the call with the number `last` was the last attempt and failed.
  abbrev pub parked : ResilientBus → ℕ → ResilientBus
  parked b last = record b {
    calls = last + 1;
    reported = b.reported ++ record { event = event; handler = handler } ∷ [];
    dlq =
        b.dlq
        ++ record {
          event = event;
          payload = payload;
          handler = handler;
          exception = last;
          parked_at = clock last;
        }
          ∷ [];
  }

  -- A handler that fails `left + 1` times is called exactly so often, reported once, and leaves one
  -- dead letter, with the last exception and the time of the last failure.
  pub attempts_exhausted :
      (left : ℕ) (b : ResilientBus)
      → ((i : ℕ) → i ≤ left → fails handler payload (b.calls + i) ≡ true)
      → attempts fails clock left event payload handler b ≡ parked b (b.calls + left)
  unfolding attempts
  attempts_exhausted zero b h =
      let here : b.calls + 0 ≡ b.calls = omega arith in
      let first : fails handler payload b.calls ≡ true = rw here at (h 0 (omega arith)) in
      rw (first, here)
  attempts_exhausted (suc left) b h =
      let b' : ResilientBus = record b { calls = b.calls + 1 } in
      let here : b.calls + 0 ≡ b.calls = omega arith in
      let later : (i : ℕ) → b.calls + 1 + i ≡ b.calls + suc i = λ i. omega arith in
      let first : fails handler payload b.calls ≡ true = rw here at (h 0 (omega arith)) in
      rw first (
        attempts_exhausted left b' (λ i le. rw (later i) (h (suc i) (omega arith)))
        ∙ ap (parked b) (later left))

-- What identifies the event of a dead letter.
pub record Parcel : Type 0 where
  pub event : String
  pub payload : ℕ
  pub handler : ℕ

abbrev pub parcel : DeadLetter → Parcel
parcel d = record { event = d.event; payload = d.payload; handler = d.handler }

-- The first list is the second with some entries left out.
pub data Sub {A : Type 0} : List A → List A → Type 0 where
  done : Sub [] []
  skip : {xs ys : List A} (y : A) → Sub xs ys → Sub xs (y ∷ ys)
  take : {xs ys : List A} (x : A) → Sub xs ys → Sub (x ∷ xs) (x ∷ ys)

module _ (fails : ℕ → ℕ → ℕ → Bool) (clock : ℕ → ℕ) where
  -- One round of attempts parks its event again, or leaves the queue as it is.
  dlq-attempts :
      (left : ℕ) (event : String) (payload handler : ℕ) (b : ResilientBus)
      → ((attempts fails clock left event payload handler b).dlq ≡ b.dlq)
        ⊎ ((d : DeadLetter) × ((attempts fails clock left event payload handler b).dlq
              ≡ b.dlq ++ d ∷ [])
            × (parcel d ≡ record { event = event; payload = payload; handler = handler }))
  unfolding attempts
  dlq-attempts zero event payload handler b = elim (Bool-cases (fails handler payload b.calls)) [
    | inl bad ↦ rw bad (inr (_, refl, refl))
    | inr good ↦ rw good (inl refl)
  ]
  dlq-attempts (suc left) event payload handler b =
      elim (Bool-cases (fails handler payload b.calls)) [
        | inl bad ↦
            rw bad (dlq-attempts left event payload handler (record b { calls = b.calls + 1 }))
        | inr good ↦ rw good (inl refl)
      ]

  dlq-reprocess_each :
      (ds : List DeadLetter) (b : ResilientBus)
      → (more : List DeadLetter) × ((reprocess_each fails clock ds b).dlq ≡ b.dlq ++ more)
        × Sub (map parcel more) (map parcel ds)
  unfolding reprocess_each
  dlq-reprocess_each [] b = ([], sym (append-nil b.dlq), done)
  dlq-reprocess_each (d ∷ ds) b =
      let b' = attempts fails clock b.max_retries d.event d.payload d.handler b in
      let (more, e, s) = dlq-reprocess_each ds b' in
      elim (dlq-attempts b.max_retries d.event d.payload d.handler b) [
        | inl same ↦ (more, e ∙ ap (λ q. q ++ more) same, skip (parcel d) s)
        | inr (d', one, p) ↦ (
          d' ∷ more,
          e ∙ ap (λ q. q ++ more) one ∙ append_assoc b.dlq (d' ∷ []) more,
          subst (λ q. Sub (q ∷ map parcel more) (parcel d ∷ map parcel ds)) (sym p)
              (take (parcel d) s),
        )
      ]

  -- `reprocess` neither makes up nor reorders dead letters: the queue it leaves holds, in order,
  -- some of the events that stood in it, for the same handlers.
  pub reprocess-Sub :
      (b : ResilientBus) → Sub (map parcel (reprocess fails clock b).dlq) (map parcel b.dlq)
  unfolding reprocess
  reprocess-Sub b = let (more, e, s) = dlq-reprocess_each b.dlq (record b { dlq = [] }) in rw e s

  calls-reprocess_each :
      (ds : List DeadLetter) (b : ResilientBus)
      → ((h p i : ℕ) → fails h p i ≡ false)
      → reprocess_each fails clock ds b ≡ record b { calls = b.calls + length ds }
  unfolding reprocess_each
  calls-reprocess_each [] b ok = let here : b.calls + 0 ≡ b.calls = omega arith in rw here
  calls-reprocess_each (d ∷ ds) b ok =
      let step =
        attempts_succeeds fails clock d.event d.payload d.handler 0 b.max_retries b (omega arith)
          (λ i lt. absurd (omega arith)) (ok d.handler d.payload (b.calls + 0)) in
      let total : b.calls + 0 + 1 + length ds ≡ b.calls + suc (length ds) = omega arith in
      ap (reprocess_each fails clock ds) step
      ∙ calls-reprocess_each ds (record b { calls = b.calls + 0 + 1 }) ok
      ∙ ap (λ (c : ℕ). record b { calls = c }) total

  -- If no handler fails any more, `reprocess` makes one call for each dead letter, leaves the queue
  -- empty, reports nothing and changes nothing else.
  pub reprocess_recovers :
      (b : ResilientBus)
      → ((h p i : ℕ) → fails h p i ≡ false)
      → reprocess fails clock b ≡ record b { dlq = []; calls = b.calls + length b.dlq }
  unfolding reprocess
  reprocess_recovers b ok = calls-reprocess_each b.dlq (record b { dlq = [] }) ok
