-- ===== src/Kernel/Dispatcher/Tracing.antt =====
-- Tracing in kernel/middleware_pipeline.py and kernel/dispatcher.py: it changes no result, and its
-- spans nest.
use sagittarius_engine.Prelude.{
  ℕ, true, false, suc, ◌≡◌, refl, sym, ap, ◌∙◌, subst, List, [], ◌∷◌, ◌++◌, append_assoc,
  append-nil, reverse,
}
use sagittarius_engine.Kernel.Dispatcher.{
  Script, finish, look, set, call_next, Span, Mark, span_begin, span_end, World, Middleware,
  Handler, mark, run, frame, spanned, middleware_lane, traced_frame, chain, execute, handle,
  next_cid, msg_type, dispatch_span, dispatch_traced, dispatch,
}

-- Marks in which each span that begins ends, around the spans inside it, all with one correlation
-- id.
pub data Nested (cid : ℕ) : List Mark → Type 0 where
  nested_nil : Nested cid []
  nested_span :
      (s : Span) (inner after : List Mark)
      → s.cid ≡ cid
      → Nested cid inner
      → Nested cid after
      → Nested cid (span_begin s ∷ (inner ++ span_end s ∷ after))

Nested-append :
    (cid : ℕ) (xs ys : List Mark) → Nested cid xs → Nested cid ys → Nested cid (xs ++ ys)
Nested-append cid _ ys nested_nil k = k
Nested-append cid _ ys (nested_span s inner after c i a) k =
    subst (λ m. Nested cid (span_begin s ∷ m)) (sym (append_assoc inner (span_end s ∷ after) ys))
      (nested_span s inner (after ++ ys) c i (Nested-append cid after ys a k))

module _ {S O : Type 0} where
  -- From worlds with the same user state, a computation returns the same as another one, leaves
  -- the same user state and adds nested marks.
  pub record Follows (cid : ℕ) (r q : O × World S) (w v : World S) : Type 0 where
    pub outcome : r.0 ≡ q.0
    pub user : r.1.user ≡ q.1.user
    pub marks : List Mark
    pub appended : r.1.marks ≡ w.marks ++ marks
    pub nested : Nested cid marks
    pub same_cid : r.1.last_cid ≡ w.last_cid
    pub untouched : q.1.marks ≡ v.marks

  Tracks : ℕ → (World S → O × World S) → (World S → O × World S) → Type 0
  Tracks cid traced plain = (w v : World S) → w.user ≡ v.user → Follows cid (traced w) (plain v) w v

  Follows-then :
      (cid : ℕ) (a b r q : O × World S) (w v : World S)
      → Follows cid a b w v
      → Follows cid r q a.1 b.1
      → Follows cid r q w v
  Follows-then cid a b r q w v f g = record {
    outcome = g.outcome;
    user = g.user;
    marks = f.marks ++ g.marks;
    appended =
        g.appended ∙ ap (λ m. m ++ g.marks) f.appended ∙ append_assoc w.marks f.marks g.marks;
    nested = Nested-append cid f.marks g.marks f.nested g.nested;
    same_cid = g.same_cid ∙ f.same_cid;
    untouched = g.untouched ∙ f.untouched;
  }

  run-Tracks :
      (cid : ℕ) (p : Script S O) (traced plain : World S → O × World S)
      → Tracks cid traced plain
      → Tracks cid (run p traced) (run p plain)
  unfolding run Tracks
  run-Tracks cid (finish o) t u h w v e = record {
    outcome = refl;
    user = e;
    marks = [];
    appended = sym (append-nil w.marks);
    nested = nested_nil;
    same_cid = refl;
    untouched = refl;
  }
  run-Tracks cid (look f) t u h w v e =
      subst (λ x. Follows cid (run (f w.user) t w) (run (f x) u v) w v) e
        (run-Tracks cid (f w.user) t u h w v e)
  run-Tracks cid (set s p) t u h w v e =
      let f = run-Tracks cid p t u h (record w { user = s }) (record v { user = s }) refl in
      record {
        outcome = f.outcome;
        user = f.user;
        marks = f.marks;
        appended = f.appended;
        nested = f.nested;
        same_cid = f.same_cid;
        untouched = f.untouched;
      }
  run-Tracks cid (call_next k) t u h w v e =
      let first = h w v e in
      let rest = run-Tracks cid (k (t w).0) t u h (t w).1 (u v).1 first.user in
      Follows-then cid (t w) (u v) (run (k (t w).0) t (t w).1) (run (k (u v).0) u (u v).1) w v first
        (subst (λ o. Follows cid (run (k (t w).0) t (t w).1) (run (k o) u (u v).1) (t w).1 (u v).1)
          first.outcome rest)

  spanned-Tracks :
      (cid : ℕ) (s : Span) (traced plain : World S → O × World S)
      → s.cid ≡ cid
      → Tracks cid traced plain
      → Tracks cid (spanned s traced) plain
  unfolding Tracks
  spanned-Tracks cid s t u same h w v e =
      let f = h (mark (span_begin s) w) v e in
      record {
        outcome = f.outcome;
        user = f.user;
        marks = span_begin s ∷ (f.marks ++ span_end s ∷ []);
        appended =
            ap (λ m. m ++ span_end s ∷ []) f.appended
            ∙ append_assoc (w.marks ++ span_begin s ∷ []) f.marks (span_end s ∷ [])
            ∙ append_assoc w.marks (span_begin s ∷ []) (f.marks ++ span_end s ∷ []);
        nested = nested_span s f.marks [] same f.nested nested_nil;
        same_cid = f.same_cid;
        untouched = f.untouched;
      }

  handle-Tracks : (cid : ℕ) (h : Handler S O) → Tracks cid (handle h) (handle h)
  unfolding Tracks
  handle-Tracks cid h w v e = record {
    outcome = ap (λ s. (h.execute s).0) e;
    user = ap (λ s. (h.execute s).1) e;
    marks = [];
    appended = sym (append-nil w.marks);
    nested = nested_nil;
    same_cid = refl;
    untouched = refl;
  }

  chain-Tracks :
      (cid : ℕ) (ms : List (Middleware S O)) (traced plain : World S → O × World S)
      → Tracks cid traced plain
      → Tracks cid (chain (traced_frame cid) ms traced) (chain frame ms plain)
  unfolding chain
  chain-Tracks cid [] t u h = h
  chain-Tracks cid (m ∷ ms) t u h = chain-Tracks cid ms (traced_frame cid m t) (frame m u) (
      spanned-Tracks cid (record { lane = middleware_lane; name = m.name; cat = ""; cid = cid })
        (frame m t) (frame m u) refl (run-Tracks cid m.process t u h))

  -- A recorder changes nothing that the application sees. Whatever the middlewares and the handler
  -- do, and also if they raise, a dispatch with a recorder returns or raises the same as one
  -- without, from the same user state, and leaves the same user state. It only appends marks,
  -- in which each span that begins also ends, around those inside it, and all carry the fresh
  -- correlation id. A dispatch without a recorder leaves no mark.
  pub dispatch_traced_agrees :
      (ms : List (Middleware S O)) (h : Handler S O) (w v : World S)
      → w.user ≡ v.user
      → Follows (suc w.last_cid) (dispatch true ms h w) (dispatch false ms h v) (next_cid w) v
  unfolding dispatch dispatch_traced execute Tracks
  dispatch_traced_agrees ms h w v e =
      let cid = suc w.last_cid in
      let final : World S → O × World S = spanned (dispatch_span h "handler" cid) (handle h) in
      spanned-Tracks cid (dispatch_span h (msg_type h) cid)
        (chain (traced_frame cid) (reverse ms) final) (chain frame (reverse ms) (handle h)) refl
        (chain-Tracks cid (reverse ms) final (handle h) (
          spanned-Tracks cid (dispatch_span h "handler" cid) (handle h) (handle h) refl
            (handle-Tracks cid h)))
        (next_cid w) v e
