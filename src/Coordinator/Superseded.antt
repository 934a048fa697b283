-- ===== src/Coordinator/Superseded.antt =====
-- The fences of services/rdf-sync/src/postgres-generation-coordinator-repository.js: a claim gives
-- the operation a fence that none has had, and no call lowers it again.
use mathlib.Core.Path.{subst}
use custom_wikibase.Prelude.{
  ◌≡◌, sym, ◌∙◌, true, false, Text, some, ℕ, ◌+◌, ◌<◌, ok, arith, Option-cases, inl, inr,
}
use custom_wikibase.Prelude.Results.{ok-injective}
use custom_wikibase.Serving.Tables.{update_where}
use custom_wikibase.Coordinator.{OperationRow, Tables}
use custom_wikibase.Coordinator.Statements.{Caller, first_where}
use custom_wikibase.Coordinator.Operations.{is_operation, is_claimable, claimed, claim_next}
use custom_wikibase.Coordinator.Calls.{
  Fenced, moves, reevaluates, authorizes, retires, finalizes, plans, marks, intends, accepts,
  confirms_absence, progresses, asserts, confirms, fails, run_fenced, may_call, Reaches,
}
use custom_wikibase.Coordinator.Rows.{IsRefused}
use custom_wikibase.Coordinator.Fenced.{run_fenced-IsRefused}
use custom_wikibase.Coordinator.Kept.{claimed-KeepsFence}
use custom_wikibase.Coordinator.Invariants.{Reaches-Holds}
use custom_wikibase.Coordinator.Fences.{
  Above, Above-IsInvariant, Keyed-IsInvariant, above-is_held, above-is_owned, is_above,
  claimed-is_above, first_where-has_row, has_row-update, is_keyed, some-injective,
}

-- What a claim that finds an operation gives and leaves.
claim_next-finds :
    (c : Caller) (db : Tables) (p : OperationRow)
    → first_where (is_claimable c) db.operations ≡ some p
    → ((claim_next c db).0 ≡ ok (some (claimed c p)))
      × ((claim_next c db).1.operations
          ≡ update_where (is_operation p.id) (claimed c) db.operations)
unfolding claim_next
claim_next-finds c db p f = (ground arith, ground arith)

claim_next-found :
    (c : Caller) (db : Tables) (o : OperationRow)
    → (claim_next c db).0 ≡ ok (some o)
    → (p : OperationRow) × ((first_where (is_claimable c) db.operations ≡ some p)
        × (o ≡ claimed c p))
unfolding claim_next
claim_next-found c db o e = elim (Option-cases (first_where (is_claimable c) db.operations)) [
  | inl n ↦ ground arith
  | inr (p, f) ↦ (p, (f, some-injective (ok-injective (sym e ∙ (claim_next-finds c db p f).0))))
]

claim_next-Above :
    (c : Caller) (db : Tables) (o : OperationRow)
    → is_keyed db.operations ≡ true
    → (claim_next c db).0 ≡ ok (some o)
    → Above o.id o.fence (claim_next c db).1.operations (claim_next c db).1.attempts
unfolding Above claimed
claim_next-Above c db o k e =
    let (p, g) = claim_next-found c db o e in
    let (f, same) = g in
    subst (λ q. Above q.id q.fence (claim_next c db).1.operations (claim_next c db).1.attempts)
      (sym same)
      (subst (λ l. Above p.id (p.fence + 1) l (claim_next c db).1.attempts)
        (sym (claim_next-finds c db p f).1)
        (
          has_row-update p.id _ (claimed c) db.operations (claimed-KeepsFence c)
              ∙ first_where-has_row _ db.operations p f,
          claimed-is_above c _ db.operations p k f,
        ))

-- The identifiers of the operations stay unique, whatever calls are made.
Reaches-is_keyed :
    (start db : Tables)
    → is_keyed start.operations ≡ true
    → Reaches start db
    → is_keyed db.operations ≡ true
Reaches-is_keyed start db k r =
    Reaches-Holds (λ l a. is_keyed l ≡ true) Keyed-IsInvariant start db r k

-- A lower fence is enough for no call.
above-may_call :
    (w : Caller) (id : Text) (n fence : ℕ) (db : Tables)
    → fence < n
    → is_above id n db.operations ≡ true
    → (call : Fenced) → may_call w id fence db call ≡ false
unfolding may_call
above-may_call w id n fence db b h (fails token code) =
    above-is_owned w id n fence db.operations b h
above-may_call w id n fence db b h (moves _ _ _) = above-is_held w id n fence db.operations b h
above-may_call w id n fence db b h reevaluates = above-is_held w id n fence db.operations b h
above-may_call w id n fence db b h authorizes = above-is_held w id n fence db.operations b h
above-may_call w id n fence db b h retires = above-is_held w id n fence db.operations b h
above-may_call w id n fence db b h finalizes = above-is_held w id n fence db.operations b h
above-may_call w id n fence db b h (plans _ _) = above-is_held w id n fence db.operations b h
above-may_call w id n fence db b h (marks _) = above-is_held w id n fence db.operations b h
above-may_call w id n fence db b h (intends _ _ _ _) = above-is_held w id n fence db.operations b h
above-may_call w id n fence db b h (accepts _ _ _) = above-is_held w id n fence db.operations b h
above-may_call w id n fence db b h (confirms_absence _ _ _) =
    above-is_held w id n fence db.operations b h
above-may_call w id n fence db b h (progresses _ _ _) = above-is_held w id n fence db.operations b h
above-may_call w id n fence db b h (asserts _) = above-is_held w id n fence db.operations b h
above-may_call w id n fence db b h (confirms _) = above-is_held w id n fence db.operations b h

-- From tables in which no two operations have one identifier, a claim of an operation supersedes
-- every earlier one for good: after any calls of any coordinators at any times, every fenced call
-- with a lower fence is refused and changes nothing.
pub claim_next-supersedes :
    (start before db : Tables) (c w : Caller) (o : OperationRow) (fence : ℕ) (call : Fenced)
    → is_keyed start.operations ≡ true
    → Reaches start before
    → (claim_next c before).0 ≡ ok (some o)
    → Reaches (claim_next c before).1 db
    → fence < o.fence
    → IsRefused (run_fenced w o.id fence call) db
unfolding Above
claim_next-supersedes start before db c w o fence call k r e r' b =
    run_fenced-IsRefused w o.id fence db call (
      above-may_call w o.id o.fence fence db b
        (Reaches-Holds (Above o.id o.fence) (Above-IsInvariant o.id o.fence) _ db r'
          (claim_next-Above c before o (Reaches-is_keyed start before k r) e)).1
        call)
