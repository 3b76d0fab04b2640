-- ===== src/Workbench/ActionRegistry/Triggers.antt =====
-- `ActionRegistry._run`, which the `triggered` signal of an action calls. `accepts` is what the
-- confirmer answers; what Qt does to an action that is clicked, before that call, is a parameter.
use sagittarius_engine.Prelude.{
  subst, sym, ℕ, ◌≡◌, refl, ap, ◌∙◌, String, string_eq, Bool, true, false, not, Option, none, some,
  ◌==◌, ==_refl, if◌then◌else◌, Bool-cases, inl, inr, Dict, get, put, get-put,
}
use sagittarius_engine.Workbench.ActionDescriptor.{ActionConfirmation}
use sagittarius_engine.Workbench.ActionRegistry.{Entry}

-- What the handler is called with, if it is.
pub data Call : Type 0 where
  no_call : Call
  called : ℕ → Bool → Call

abbrev pub declines : (ActionConfirmation → Bool) → Option ActionConfirmation → Bool
declines accepts none = false
declines accepts (some c) = not (accepts c)

abbrev pub toggled_if : Bool → Entry → Entry
toggled_if true e = record e { checked = not e.checked }
toggled_if false e = e

abbrev pub toggled : Entry → Entry
toggled e = toggled_if e.descriptor.checkable e

-- A declined command that is checkable is turned back.
abbrev pub run_bound : (ActionConfirmation → Bool) → Option ℕ → Entry → Entry × Call
run_bound accepts none e = (e, no_call)
run_bound accepts (some h) e =
    if declines accepts e.descriptor.confirm then (toggled e, no_call) else (e, called h e.checked)

abbrev pub run_entry : (ActionConfirmation → Bool) → Entry → Entry × Call
run_entry accepts e = run_bound accepts e.handler e

-- `self._entries[action_id]`: `none` is the `KeyError`.
abbrev pub run_found :
    (ActionConfirmation → Bool)
    → String
    → Option Entry
    → Dict String Entry
    → Option (Dict String Entry × Call)
run_found accepts i none entries = none
run_found accepts i (some e) entries =
    let (e', call) = run_entry accepts e in some (put i e' entries, call)

unfoldable pub run :
    (ActionConfirmation → Bool) → String → Dict String Entry → Option (Dict String Entry × Call)
run accepts i entries = run_found accepts i (get i entries) entries

-- What Qt documents of a click: it turns the checked state of a checkable action over and leaves all
-- else.
pub record IsClick (click : Entry → Entry) : Type 0 where
  pub turned_over :
      (e : Entry) → e.descriptor.checkable ≡ true → click e ≡ record e { checked = not e.checked }
  pub kept : (e : Entry) → e.descriptor.checkable ≡ false → click e ≡ e

if_true : (b : Bool) (x y : Entry × Call) → b ≡ true → (if b then x else y) ≡ x
if_true b x y h = rw h refl

if_false : (b : Bool) (x y : Entry × Call) → b ≡ false → (if b then x else y) ≡ y
if_false b x y h = rw h refl

not-not : (b : Bool) → not (not b) ≡ b
not-not true = refl
not-not false = refl

toggled_if_twice : (b : Bool) (e : Entry) → toggled_if b (toggled_if b e) ≡ e
toggled_if_twice true e = ap (λ b. record e { checked = b }) (not-not e.checked)
toggled_if_twice false e = refl

pub toggled-IsClick : IsClick toggled
toggled-IsClick = record {
  turned_over = λ e h. ap (λ b. toggled_if b e) h;
  kept = λ e h. ap (λ b. toggled_if b e) h;
}

run_declined :
    (accepts : ActionConfirmation → Bool) (h : ℕ) (e : Entry)
    → e.handler ≡ some h
    → declines accepts e.descriptor.confirm ≡ true
    → run_entry accepts e ≡ (toggled e, no_call)
run_declined accepts h e bound_to declined =
    ap (λ o. run_bound accepts o e) bound_to
    ∙ if_true (declines accepts e.descriptor.confirm) _ _ declined

run_accepted :
    (accepts : ActionConfirmation → Bool) (h : ℕ) (e : Entry)
    → e.handler ≡ some h
    → declines accepts e.descriptor.confirm ≡ false
    → run_entry accepts e ≡ (e, called h e.checked)
run_accepted accepts h e bound_to accepted =
    ap (λ o. run_bound accepts o e) bound_to
    ∙ if_false (declines accepts e.descriptor.confirm) _ _ accepted

run_unbound :
    (accepts : ActionConfirmation → Bool) (e : Entry)
    → e.handler ≡ none
    → run_entry accepts e ≡ (e, no_call)
run_unbound accepts e unbound = ap (λ o. run_bound accepts o e) unbound

module _ (click : Entry → Entry) (is_click : IsClick click) where
  -- All that a click leaves, and that a second turn undoes it.
  pub record IsClicked (e f : Entry) : Type 0 where
    pub same_descriptor : f.descriptor ≡ e.descriptor
    pub same_handler : f.handler ≡ e.handler
    pub turned_back : toggled f ≡ e

  clicked : (e : Entry) → IsClicked e (click e)
  clicked e = elim (Bool-cases e.descriptor.checkable) [
    | inl checkable ↦ subst (IsClicked e) (sym (is_click.turned_over e checkable)) (record {
      same_descriptor = refl;
      same_handler = refl;
      turned_back =
          ap (λ b. toggled_if b (record e { checked = not e.checked })) checkable
          ∙ ap (λ b. record e { checked = b }) (not-not e.checked);
    })
    | inr not_checkable ↦ subst (IsClicked e) (sym (is_click.kept e not_checkable)) (record {
      same_descriptor = refl;
      same_handler = refl;
      turned_back = ap (λ b. toggled_if b e) not_checkable;
    })
  ]

  -- What `_run` answers for the entry that a click left.
  abbrev pub Answers : (ActionConfirmation → Bool) → Entry → Entry × Call → Type 0
  Answers accepts e out =
      (e.handler ≡ none → out ≡ (click e, no_call))
      × ((h : ℕ)
          → e.handler ≡ some h
          → declines accepts e.descriptor.confirm ≡ true
          → out ≡ (e, no_call))
      × ((h : ℕ)
          → e.handler ≡ some h
          → declines accepts e.descriptor.confirm ≡ false
          → out ≡ (click e, called h (click e).checked))

  run_entry-Answers :
      (accepts : ActionConfirmation → Bool) (e : Entry)
      → Answers accepts e (run_entry accepts (click e))
  run_entry-Answers accepts e =
      let is = clicked e in
      (
        λ unbound. run_unbound accepts (click e) (is.same_handler ∙ unbound),
        λ h bound_to declined.
            run_declined accepts h (click e) (is.same_handler ∙ bound_to)
              (ap (λ d. declines accepts d.confirm) is.same_descriptor ∙ declined)
            ∙ ap (λ f. (f, no_call)) is.turned_back,
        λ h bound_to accepted.
            run_accepted accepts h (click e) (is.same_handler ∙ bound_to)
              (ap (λ d. declines accepts d.confirm) is.same_descriptor ∙ accepted),
      )

-- A command that is not registered raises `KeyError`. For a command that was clicked, `_run` leaves
-- the entry and makes the call that follow, and leaves the other commands: without a handler, the
-- clicked entry and no call; where the confirmation is declined, the entry as it was before the
-- click, checked or not, and no call; else the clicked entry and the call of the handler with its
-- checked state.
pub run_lem :
    (click : Entry → Entry) (is_click : IsClick click) (accepts : ActionConfirmation → Bool)
    (i : String) (entries : Dict String Entry)
    → (get i entries ≡ none → run accepts i entries ≡ none)
      × ((e : Entry)
          → get i entries ≡ some (click e)
          → (out : Entry × Call) × (after : Dict String Entry) × (run accepts i entries
              ≡ some (after, out.1))
            × (get i after ≡ some out.0)
            × ((j : String) → (i == j) ≡ false → get j after ≡ get j entries)
            × Answers click is_click accepts e out)
unfolding run
run_lem click is_click accepts i entries = (
  λ missing. rw missing refl,
  λ e there.
      let out = run_entry accepts (click e) in
      (
        out,
        put i out.0 entries,
        rw there refl,
        get_self i out.0 entries,
        λ j other. rw (get-put i j out.0 entries, other) refl,
        run_entry-Answers click is_click accepts e,
      ),
)
  where
    get_self : (i : String) (f : Entry) (d : Dict String Entry) → get i (put i f d) ≡ some f
    get_self i f d = rw (get-put i i f d, ==_refl i) refl
