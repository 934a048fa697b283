-- ===== src/RdfSync/Protocol/FenceLast.antt =====
-- The place of the fence in `applyEntityProtocol`.
use mathlib.Core.Path.{subst}
use custom_wikibase.Prelude.{
  ℕ, ◌≡◌, ◌<◌, refl, sym, ap, ◌∙◌, Bool, true, false, Text, codes, ◌==◌, Result, ok, err, Exec,
  pure, continue, arith, ◌>>=◌, Result-cases, if◌then◌else◌, Bool-cases, leb, ltb, ◌||◌, inl, inr,
  ◌⊎◌,
}
use custom_wikibase.RdfSync.Fence.{
  RevisionFence, Decision, duplicate, older, gap, apply, writes, observe, commit, fail,
}
use custom_wikibase.RdfSync.Protocol.{
  Hooks, Session, Report, unwritten, applied, calling, fencing, commit_fence, fail_fence,
  update_graph, fetch_and_update, apply_entity_protocol, phase, revision_mismatch,
}

module _ {Outside Fetched Staged : Type 0} (h : Hooks Outside Fetched Staged) (id : Text)
    (revid old : ℕ) (start : Outside) where
  -- The call came back with the result and left the state.
  abbrev pub Ran : {A : Type 0} → Exec Outside A → Outside → A → Outside → Type 0
  Ran m o a o' = m o ≡ (ok a, o')

  -- From the start, the entity was fetched at the event's revision.
  pub record HasFetched (fetched : Fetched) (finish : Outside) : Type 0 where
    pub before : Outside
    pub at : Outside
    pub begun : Ran (h.on_phase (codes "BEFORE_FETCH")) start tt before
    pub fetches : Ran (h.fetch_entity id revid) before fetched at
    pub ended : Ran (h.on_phase (codes "AFTER_FETCH")) at tt finish

  -- From the start, what was fetched was staged, what was staged was committed, and then the graph
  -- was verified, each in the state that the call before it left.
  pub record HasVerified (finish : Outside) : Type 0 where
    pub fetched : Fetched
    pub staged : Staged
    pub at_fetch : Outside
    pub at_stage : Outside
    pub staged_at : Outside
    pub at_commit : Outside
    pub committed_at : Outside
    pub at_verify : Outside
    pub fetches : HasFetched fetched at_fetch
    pub is_revision : h.revision_of fetched ≡ revid
    pub before : Ran (h.on_phase (codes "BEFORE_BACKEND_UPDATE")) at_fetch tt at_stage
    pub stages : Ran (h.stage fetched) at_stage staged staged_at
    pub during : Ran (h.on_phase (codes "DURING_BACKEND_UPDATE")) staged_at tt at_commit
    pub commits : Ran (h.commit_graph staged) at_commit tt committed_at
    pub after : Ran (h.on_phase (codes "AFTER_BACKEND_UPDATE")) committed_at tt at_verify
    pub verifies : Ran (h.verify_graph fetched) at_verify true finish

  -- The fence has moved up to the event, and all that came after the verification is the last phase.
  pub record HasMoved (n : ℕ) (s : Session Outside) : Type 0 where
    pub indexed : s.fence.indexed_revision ≡ revid
    pub onward : n < revid
    pub at : Outside
    pub verified : HasVerified at
    pub last : s.outside ≡ (h.on_phase (codes "AFTER_FENCE_UPDATE") at).1

  -- What a run that began with the indexed revision `n` leaves, whether it throws or not.
  pub record FenceLast (n : ℕ) (run : Result Report × Session Outside) : Type 0 where
    pub moved : (run.1.fence.indexed_revision ≡ n) ⊎ HasMoved n run.1
    pub reported : run.0 ≡ ok applied → HasMoved n run.1

  stays :
      (n : ℕ) (r : Result Report) (s : Session Outside)
      → s.fence.indexed_revision ≡ n
      → (r ≡ ok applied → ⊥)
      → FenceLast n (r, s)
  stays n r s p other = record { moved = inl p; reported = λ e. absurd (other e) }

  -- A call of something outside, and what follows.
  calling-FenceLast :
      {A : Type 0} (n : ℕ) (m : Exec Outside A) (k : A → Exec (Session Outside) Report)
      (s : Session Outside)
      → s.fence.indexed_revision ≡ n
      → ((a : A)
          → Ran m s.outside a (m s.outside).1
          → FenceLast n (k a (record s { outside = (m s.outside).1 })))
      → FenceLast n ((calling m >>= k) s)
  unfolding calling ◌>>=◌
  calling-FenceLast n m k s p next =
      let s' = record s { outside = (m s.outside).1 } in
      elim (Result-cases (m s.outside).0) [
        | inl (e, q) ↦
            subst (λ r. FenceLast n (continue r k s')) (sym q) (stays n (err e) s' p (λ o. cc))
        | inr (a, q) ↦
            subst (λ r. FenceLast n (continue r k s')) (sym q)
              (next a (ap (λ r. (r, (m s.outside).1)) q))
      ]

  commit-moves :
      (f : RevisionFence)
      → ((e : Text) × (commit revid f ≡ (err e, f)))
        ⊎ ((f.indexed_revision < revid)
            × ((commit revid f).0 ≡ ok tt)
            × ((commit revid f).1.indexed_revision ≡ revid))
  unfolding commit
  commit-moves f =
      elim (Bool-cases (leb revid f.indexed_revision || ltb f.latest_seen_revision revid)) [
        | inl e ↦ inl (codes "invalid fence commit", ground arith)
        | inr e ↦ inr (ground arith, ground arith, ground arith)
      ]

  observe-indexed :
      (f : RevisionFence) → (observe revid old f).1.indexed_revision ≡ f.indexed_revision
  unfolding observe
  observe-indexed f = ground arith

  moves : (n : ℕ) (r : Result Report) (s : Session Outside) → HasMoved n s → FenceLast n (r, s)
  moves n r s m = record { moved = inr m; reported = λ e. m }

  -- After the commit of the fence, whatever the last phase does.
  last_phase-FenceLast :
      (n : ℕ) (s : Session Outside)
      → s.fence.indexed_revision ≡ revid
      → n < revid
      → HasVerified s.outside
      → FenceLast n ((phase h id revid old (codes "AFTER_FENCE_UPDATE") >>= λ _. pure applied) s)
  unfolding calling ◌>>=◌
  last_phase-FenceLast n s p lt v =
      let s' = record s { outside = (h.on_phase (codes "AFTER_FENCE_UPDATE") s.outside).1 } in
      let m : HasMoved n s' = record {
        indexed = p;
        onward = lt;
        at = s.outside;
        verified = v;
        last = refl;
      } in
      elim (Result-cases (h.on_phase (codes "AFTER_FENCE_UPDATE") s.outside).0) [
        | inl (e, q) ↦
            subst (λ r. FenceLast n (continue r (λ _. pure applied) s')) (sym q)
              (moves n (err e) s' m)
        | inr (a, q) ↦
            subst (λ r. FenceLast n (continue r (λ _. pure applied) s')) (sym q)
              (moves n (ok applied) s' m)
      ]

  commit_fence-FenceLast :
      (n : ℕ) (s : Session Outside)
      → s.fence.indexed_revision ≡ n
      → HasVerified s.outside
      → FenceLast n (commit_fence h id revid old s)
  unfolding commit_fence fencing ◌>>=◌
  commit_fence-FenceLast n s p v =
      let k =
        λ (_ : Unit {0}). phase h id revid old (codes "AFTER_FENCE_UPDATE") >>= λ _. pure applied in
      let after =
        λ (x : Result (Unit {0}) × RevisionFence). continue x.0 k (record s { fence = x.1 }) in
      elim (commit-moves s.fence) [
        | inl (e, q) ↦ subst (λ x. FenceLast n (after x)) (sym q) (stays n (err e) s p (λ o. cc))
        | inr (lt, fine, at) ↦
            subst (λ r. FenceLast n (continue r k (record s { fence = (commit revid s.fence).1 })))
              (sym fine)
              (last_phase-FenceLast n (record s { fence = (commit revid s.fence).1 }) at
                (subst (λ x. x < revid) p lt) v)
      ]

  fail_fence-FenceLast :
      (n : ℕ) (s : Session Outside)
      → s.fence.indexed_revision ≡ n
      → FenceLast n (fail_fence h id revid old s)
  unfolding fail_fence fencing fail ◌>>=◌
  fail_fence-FenceLast n s p = stays n _ _ p (λ o. cc)

  verified-FenceLast :
      (n : ℕ) (verified : Bool) (s : Session Outside)
      → s.fence.indexed_revision ≡ n
      → (verified ≡ true → HasVerified s.outside)
      → FenceLast n
          ((if verified then commit_fence h id revid old else fail_fence h id revid old) s)
  verified-FenceLast n true s p v = commit_fence-FenceLast n s p (v refl)
  verified-FenceLast n false s p v = fail_fence-FenceLast n s p

  confirmed :
      (x : Result Bool × Outside) (b : Bool) (o : Outside)
      → b ≡ true
      → x ≡ (ok b, o)
      → x ≡ (ok true, o)
  confirmed x b o e q = q ∙ ap (λ c. (ok c, o)) e

  update_graph-FenceLast :
      (n : ℕ) (fetched : Fetched) (s : Session Outside)
      → s.fence.indexed_revision ≡ n
      → HasFetched fetched s.outside
      → h.revision_of fetched ≡ revid
      → FenceLast n (update_graph h id revid old fetched s)
  unfolding update_graph
  update_graph-FenceLast n fetched s p f r = calling-FenceLast n _ _ s p (λ _ before.
      calling-FenceLast n _ _ _ p (λ staged stages. calling-FenceLast n _ _ _ p (λ _ during.
        calling-FenceLast n _ _ _ p (λ _ commits. calling-FenceLast n _ _ _ p (λ _ after.
          calling-FenceLast n _ _ _ p (λ verified verifies. verified-FenceLast n verified _ p (λ e.
            record {
              fetched = fetched;
              staged = staged;
              at_fetch = s.outside;
              at_stage = _;
              staged_at = _;
              at_commit = _;
              committed_at = _;
              at_verify = _;
              fetches = f;
              is_revision = r;
              before = before;
              stages = stages;
              during = during;
              commits = commits;
              after = after;
              verifies = confirmed _ verified _ e verifies;
            })))))))

  fetched-FenceLast :
      (n : ℕ) (fetched : Fetched) (same : Bool) (s : Session Outside)
      → s.fence.indexed_revision ≡ n
      → HasFetched fetched s.outside
      → (h.revision_of fetched == revid) ≡ same
      → FenceLast n
          ((if same then update_graph h id revid old fetched else pure revision_mismatch) s)
  fetched-FenceLast n fetched true s p f e = update_graph-FenceLast n fetched s p f (ground arith)
  fetched-FenceLast n fetched false s p f e = stays n _ s p (λ o. cc)

  fetch_and_update-FenceLast :
      (n : ℕ) (s : Session Outside)
      → s.fence.indexed_revision ≡ n
      → Ran (h.on_phase (codes "BEFORE_FETCH")) start tt s.outside
      → FenceLast n (fetch_and_update h id revid old s)
  unfolding fetch_and_update
  fetch_and_update-FenceLast n s p begun = calling-FenceLast n _ _ s p (λ fetched fetches.
      calling-FenceLast n _ _ _ p (λ _ ended.
        fetched-FenceLast n fetched _ _ p
          (record { before = s.outside; at = _; begun = begun; fetches = fetches; ended = ended })
          refl))

  decided-FenceLast :
      (n : ℕ) (decision : Decision) (s : Session Outside)
      → s.fence.indexed_revision ≡ n
      → Ran (h.on_phase (codes "BEFORE_FETCH")) start tt s.outside
      → FenceLast n (
          (if writes decision then fetch_and_update h id revid old else pure (unwritten decision))
            s)
  decided-FenceLast n apply s p begun = fetch_and_update-FenceLast n s p begun
  decided-FenceLast n duplicate s p begun = stays n _ s p (λ o. cc)
  decided-FenceLast n older s p begun = stays n _ s p (λ o. cc)
  decided-FenceLast n gap s p begun = stays n _ s p (λ o. cc)

  observed-FenceLast :
      (n : ℕ) (s : Session Outside)
      → s.fence.indexed_revision ≡ n
      → Ran (h.on_phase (codes "BEFORE_FETCH")) start tt s.outside
      → FenceLast n (
          (fencing (observe revid old) >>= λ decision.
          if writes decision then fetch_and_update h id revid old else pure (unwritten decision))
            s)
  unfolding fencing ◌>>=◌
  observed-FenceLast n s p begun =
      let s' = record s { fence = (observe revid old s.fence).1 } in
      let k = λ (decision : Decision).
        if writes decision then fetch_and_update h id revid old else pure (unwritten decision) in
      let p' : s'.fence.indexed_revision ≡ n = observe-indexed s.fence ∙ p in
      elim (Result-cases (observe revid old s.fence).0) [
        | inl (e, q) ↦
            subst (λ r. FenceLast n (continue r k s')) (sym q) (stays n (err e) s' p' (λ o. cc))
        | inr (decision, q) ↦
            subst (λ r. FenceLast n (continue r k s')) (sym q)
              (decided-FenceLast n decision s' p' begun)
      ]

  -- Whatever the functions outside do, and wherever one of them throws: the indexed revision of the
  -- fence stays, or it moves up to that of the event. It moves, as it does whenever the update reports
  -- that it is applied, only after the entity was fetched at that revision, staged, committed and
  -- verified, one after the other, and nothing but the last phase is called after it.
  pub apply_entity_protocol-FenceLast :
      (f : RevisionFence)
      → FenceLast f.indexed_revision
          (apply_entity_protocol h id revid old (record { fence = f; outside = start }))
  unfolding apply_entity_protocol
  apply_entity_protocol-FenceLast f =
      calling-FenceLast _ _ _ _ refl (λ _ begun. observed-FenceLast _ _ refl begun)
