-- ===== src/Ingest/Stopping.antt =====
-- runtime/transactional_ingest.py: a lease epoch that a cancellation has stopped, which no later call
-- lets go on.
use knoarbor.Prelude.{
  ℕ, ◌+◌, String, ◌≡◌, Bool, true, false, not, ◌&&◌, ◌||◌, ltb, leb, is_some, Option, none, some,
  arith, eq_iff, Option-cases, inl, inr, ok, str_eq,
}
use knoarbor.Table.{
  Table, lookup, update_where, insert, lookup-update_where, lookup-insert, insert-eq-ok,
}
use knoarbor.Ingest.State.{Task, AttemptLease}
use knoarbor.Ingest.Tasks.{holds_epoch, claim_task, at_version}
use knoarbor.Ingest.Writes.{IsKept, Forgotten}

-- The leases up to an epoch are over, or find the request to cancel, or no lease.
abbrev pub halts : ℕ → Option Task → Bool
halts bound none = false
halts bound (some t) =
    leb bound t.lease_epoch
    && (ltb bound t.lease_epoch || t.cancel_requested || not (is_some t.lease_expires_at))

-- The tasks that halt in the first table halt in the second.
abbrev pub Stays : ℕ → Table Task → Table Task → Type 0
Stays bound ts ts' =
    (id : String) → halts bound (lookup id ts) ≡ true → halts bound (lookup id ts') ≡ true

module _ (bound : ℕ) where
  Stays-update :
      (test : String → Task → Bool) (f : Task → Task) (ts : Table Task)
      → ((k : String) (t : Task)
          → lookup k ts ≡ some t
          → test k t ≡ true
          → halts bound (some t) ≡ true
          → halts bound (some (f t)) ≡ true)
      → Stays bound ts (update_where test f ts)
  Stays-update test f ts keeps id v = elim (Option-cases (lookup id ts)) [
    | inl e ↦ absurd (ground (arith, v, e))
    | inr (t, e) ↦ ground (arith, lookup-update_where test f id ts, keeps id t e)
  ]

  Stays-insert :
      (k : String) (t : Task) (ts ts' : Table Task) → insert k t ts ≡ ok ts' → Stays bound ts ts'
  Stays-insert k t ts ts' h id v =
      ground (arith, v, lookup-insert k t ts ts' id h, insert-eq-ok k t ts ts' h, eq_iff k id)

  claimed-Stays :
      (id owner : String) (t : Task) (expires now : ℕ) (ts : Table Task)
      → lookup id ts ≡ some t
      → Stays bound ts (
          update_where
            (at_version id t.version)
            (claim_task owner (t.lease_epoch + 1) expires now)
            ts)
  claimed-Stays id owner t expires now ts e = Stays-update _ _ ts (λ k u found hit v.
      let same : k ≡ id = (eq_iff k id).0 (ground arith) in
      let row : u ≡ t = cc in ground (arith, v))

  renewed-Stays :
      (lease : AttemptLease) (t : Task) (checked expires now : ℕ) (ts : Table Task)
      → lookup lease.task_id ts ≡ some t
      → holds_epoch lease t checked ≡ true
      → t.cancel_requested ≡ false
      → Stays bound ts (
          update_where
            (λ k _. str_eq k lease.task_id)
            (λ u. record u { lease_expires_at = some expires; updated_at = now })
            ts)
  renewed-Stays lease t checked expires now ts e holds open_task =
      Stays-update _ _ ts (λ k u found hit v.
        let same : k ≡ lease.task_id = (eq_iff k lease.task_id).0 hit in
        let row : u ≡ t = cc in ground (arith, v, holds, open_task))

  pub Stays-IsKept : IsKept (Stays bound)
  Stays-IsKept = record {
    same = λ ts ts' e id v. rw e v;
    trans = λ a b c h k id v. k id (h id v);
    inserted = Stays-insert;
    claimed = claimed-Stays;
    renewal = renewed-Stays;
    cancels = λ id state now ts. Stays-update _ _ ts (λ k u found hit v. ground (arith, v));
    fails = λ id now ts. Stays-update _ _ ts (λ k u found hit v. ground (arith, v));
    requeued = λ id a now ts. Stays-update _ _ ts (λ k u found hit v. ground (arith, v));
    settled = λ id state now ts. Stays-update _ _ ts (λ k u found hit v. ground (arith, v));
    reaps = λ id version now ts. Stays-update _ _ ts (λ k u found hit v. ground (arith, v));
  }

  pub Stays-Forgotten : Forgotten (Stays bound)
  Stays-Forgotten test ts = Stays-update _ _ ts (λ k u found hit v. ground (arith, v))
