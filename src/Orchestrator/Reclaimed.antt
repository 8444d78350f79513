-- ===== src/Orchestrator/Reclaimed.antt =====
-- Which worktrees the reclaimer removes, and which sessions it keeps.
use loony_dev.Prelude.{
  Bool, true, false, List, [], ◌∷◌, ◌++◌, none, some, Text, text_eq, mem_text, ◌≡◌, refl, sym, ◌∙◌,
  ◌⊎◌, inl, inr, arith, Bool-cases, text_eq_iff,
}
use mathlib.Core.List.{Memᴰ}
use mathlib.Core.List.Memᴰ
use std.Path.{subst}
use mathlib.Core.Option.{some-injective, none-ne-some}
use loony_dev.Prelude.Dictionary.{lookup, lookup-remove, lookup-remove_self}
use loony_dev.Github.Client.{Result, ok, raise}
use loony_dev.Repository.Eviction.{Unique}
use loony_dev.Orchestrator.Sessions.{
  PipelineSession, Sessions, Trace, Checkout, WorktreeCall, remove_worktree, Outcome, returned,
  os_error, other_error, succeeded, remove_worktree_at,
}
use loony_dev.Orchestrator.Reclaim.{
  is_done, reclaim, reclaim_one, reclaim_items, reclaim_completed_pipelines,
}

succeeded_lem : (o : Outcome) → succeeded o ≡ true → o ≡ returned
succeeded_lem returned h = refl
succeeded_lem os_error h = absurd (ground arith)
succeeded_lem other_error h = absurd (ground arith)

module _ (git : Checkout) (claimed : List Text) (is_complete : Text → Result Bool) where
  -- The calls that the reclaimer may add: the removal of the worktree of a session that nobody
  -- works on and whose work has ended.
  pub data Extends (sessions : Sessions) : Trace → Trace → Type 0 where
    stays : {tr : Trace} → Extends sessions tr tr
    removes :
        {tr later : Trace} (key : Text) (ps : PipelineSession) (o : Outcome)
        → Memᴰ (key, ps) sessions
        → mem_text key claimed ≡ false
        → is_complete key ≡ ok true
        → Extends sessions (tr ++ (remove_worktree ps.worktree_path, o) ∷ []) later
        → Extends sessions tr later

  -- What becomes of a session.
  pub data Fate (key : Text) (ps : PipelineSession) (after : Sessions × Trace) : Type 0 where
    kept :
        (mem_text key claimed ≡ true) ⊎ (is_done (is_complete key) ≡ false)
        → lookup key after.0 ≡ some ps
        → Fate key ps after
    retried :
        (o : Outcome)
        → is_complete key ≡ ok true
        → succeeded o ≡ false
        → Memᴰ (remove_worktree ps.worktree_path, o) after.1
        → lookup key after.0 ≡ some ps
        → Fate key ps after
    released :
        mem_text key claimed ≡ false
        → is_complete key ≡ ok true
        → Memᴰ (remove_worktree ps.worktree_path, returned) after.1
        → lookup key after.0 ≡ none
        → Fate key ps after

  is_done_lem : (r : Result Bool) → is_done r ≡ true → r ≡ ok true
  is_done_lem (ok true) h = refl
  is_done_lem (ok false) h = absurd (ground arith)
  is_done_lem (raise e) h = absurd (ground arith)

  Extends-trans :
      {all : Sessions} {a b c : Trace} → Extends all a b → Extends all b c → Extends all a c
  Extends-trans stays k = k
  Extends-trans (removes key ps o m free over h) k =
      removes key ps o m free over (Extends-trans h k)

  reclaim_one-Extends :
      (all : Sessions) (key : Text) (ps : PipelineSession) (st : Sessions × Trace)
      → Memᴰ (key, ps) all
      → Extends all st.1 (reclaim_one git claimed is_complete key ps st).1
  unfolding reclaim_one reclaim remove_worktree_at
  reclaim_one-Extends all key ps (sessions, tr) m = elim (Bool-cases (mem_text key claimed)) [
    | inl c ↦ rw (reclaim_one, c) stays
    | inr c ↦ elim (Bool-cases (is_done (is_complete key))) [
      | inr d ↦ rw (reclaim_one, c, d) stays
      | inl d ↦
          rw (reclaim_one, c, d)
            (removes key ps (git tr (remove_worktree ps.worktree_path)) m c
              (is_done_lem (is_complete key) d) stays)
    ]
  ]

  reclaim_items-Extends :
      (all items : Sessions) (st : Sessions × Trace)
      → ((key : Text) (ps : PipelineSession) → Memᴰ (key, ps) items → Memᴰ (key, ps) all)
      → Extends all st.1 (reclaim_items git claimed is_complete items st).1
  unfolding reclaim_items
  reclaim_items-Extends all [] st sub = stays
  reclaim_items-Extends all ((key, ps) ∷ items) st sub =
      Extends-trans (reclaim_one-Extends all key ps st (sub key ps (Memᴰ.head refl))) (
        reclaim_items-Extends all items (reclaim_one git claimed is_complete key ps st)
          (λ k p m. sub k p (Memᴰ.tail m)))

  Memᴰ-Extends :
      {all : Sessions} {a b : Trace} {x : WorktreeCall × Outcome}
      → Extends all a b
      → Memᴰ x a
      → Memᴰ x b
  Memᴰ-Extends stays m = m
  Memᴰ-Extends (removes key ps o mem free over h) m = Memᴰ-Extends h (Memᴰ.append_left _ m)

  reclaim_one-other :
      (j key : Text) (p : PipelineSession) (st : Sessions × Trace)
      → text_eq j key ≡ false
      → lookup key (reclaim_one git claimed is_complete j p st).0 ≡ lookup key st.0
  unfolding reclaim_one reclaim remove_worktree_at
  reclaim_one-other j key p (sessions, tr) h = ground (arith, lookup-remove j key sessions)

  reclaim_items-other :
      (key : Text) (items : Sessions) (st : Sessions × Trace)
      → lookup key items ≡ none
      → lookup key (reclaim_items git claimed is_complete items st).0 ≡ lookup key st.0
  unfolding reclaim_items lookup
  reclaim_items-other key [] st h = refl
  reclaim_items-other key ((j, p) ∷ items) st h = elim (Bool-cases (text_eq j key)) [
    | inl e ↦ absurd (ground arith)
    | inr e ↦
        reclaim_items-other key items (reclaim_one git claimed is_complete j p st) (ground arith)
        ∙ reclaim_one-other j key p st e
  ]

  Fate-one :
      (key : Text) (ps : PipelineSession) (st : Sessions × Trace)
      → lookup key st.0 ≡ some ps
      → Fate key ps (reclaim_one git claimed is_complete key ps st)
  unfolding reclaim_one reclaim remove_worktree_at
  Fate-one key ps (sessions, tr) h = elim (Bool-cases (mem_text key claimed)) [
    | inl c ↦ rw (reclaim_one, c) (kept (inl c) h)
    | inr c ↦ elim (Bool-cases (is_done (is_complete key))) [
      | inr d ↦ rw (reclaim_one, c, d) (kept (inr d) h)
      | inl d ↦
          let over = is_done_lem (is_complete key) d in
          let call = remove_worktree ps.worktree_path in
          let last = Memᴰ.append_right tr (Memᴰ.head {x = (call, git tr call)} {xs = []} refl) in
          elim (Bool-cases (succeeded (git tr call))) [
            | inl g ↦
                rw (reclaim_one, c, d, g)
                  (released c over
                    (subst (λ o. Memᴰ (call, o) (tr ++ (call, git tr call) ∷ []))
                      (succeeded_lem (git tr call) g) last)
                    (lookup-remove_self key sessions))
            | inr g ↦ rw (reclaim_one, c, d, g) (retried (git tr call) over g last h)
          ]
    ]
  ]

  Fate-items :
      (key : Text) (ps : PipelineSession) (items : Sessions) (st : Sessions × Trace)
      → lookup key items ≡ none
      → Fate key ps st
      → Fate key ps (reclaim_items git claimed is_complete items st)
  Fate-items key ps items st absent fate =
      let same = reclaim_items-other key items st absent in
      let grows = reclaim_items-Extends items items st (λ k p m. m) in
      elim fate [
        | kept why h ↦ kept why (same ∙ h)
        | retried o over failed m h ↦ retried o over failed (Memᴰ-Extends grows m) (same ∙ h)
        | released free over m h ↦ released free over (Memᴰ-Extends grows m) (same ∙ h)
      ]

  Fate-all :
      (key : Text) (ps : PipelineSession) (items : Sessions) (st : Sessions × Trace)
      → Unique items
      → lookup key items ≡ some ps
      → lookup key st.0 ≡ some ps
      → Fate key ps (reclaim_items git claimed is_complete items st)
  unfolding reclaim_items lookup Unique
  Fate-all key ps [] st u h k = absurd (none-ne-some _ h)
  Fate-all key ps ((j, p) ∷ items) st u h k = elim (Bool-cases (text_eq j key)) [
    | inl e ↦
        let same_key = (text_eq_iff j key).0 e in
        let same : p ≡ ps = some-injective _ _ (ground arith) in
        Fate-items key ps items (reclaim_one git claimed is_complete j p st)
          (subst (λ n. lookup n items ≡ none) same_key u.0)
          (subst (λ q. Fate key ps (reclaim_one git claimed is_complete j q st)) (sym same)
            (subst (λ n. Fate key ps (reclaim_one git claimed is_complete n ps st)) (sym same_key)
              (Fate-one key ps st k)))
    | inr e ↦
        Fate-all key ps items (reclaim_one git claimed is_complete j p st) u.1 (ground arith)
          (reclaim_one-other j key p st e ∙ k)
  ]

-- One pass over the sessions, which have a key each, makes no call but to remove the worktree of
-- a session that is not claimed and whose work has ended. A session that is claimed, or whose
-- work has not ended or is not known to have, stays as it is; of the others, the session goes
-- where the removal succeeds, and stays for the next pass where it fails.
pub reclaim_completed_pipelines-Fate :
    (git : Checkout) (claimed : List Text) (is_complete : Text → Result Bool) (sessions : Sessions)
    (tr : Trace)
    → Unique sessions
    → Extends git claimed is_complete sessions tr
        (reclaim_completed_pipelines git claimed is_complete sessions tr).1
      × ((key : Text) (ps : PipelineSession)
          → lookup key sessions ≡ some ps
          → Fate git claimed is_complete key ps
              (reclaim_completed_pipelines git claimed is_complete sessions tr))
unfolding reclaim_completed_pipelines
reclaim_completed_pipelines-Fate git claimed is_complete sessions tr u = (
  reclaim_items-Extends git claimed is_complete sessions sessions (sessions, tr) (λ k p m. m),
  λ key ps h. Fate-all git claimed is_complete key ps sessions (sessions, tr) u h h,
)
