-- ===== src/Lease/Fencing.antt =====
-- Leases of a run that follow one another: src/core/lease.ts.
use shan_hai_edu_ppt.Base.{
  ℕ, ◌+◌, ◌≤◌, ◌<◌, ◌≡◌, refl, ap, true, false, Option, none, some, String, arith, is_text,
  is_blank, ok, err,
}
use shan_hai_edu_ppt.Base.Int.{Number, amount}
use shan_hai_edu_ppt.Contracts.{has_status}
use shan_hai_edu_ppt.Policy.{is_terminal_status}
use shan_hai_edu_ppt.Ports.{StoredRun}
use shan_hai_edu_ppt.Lease.{
  RunLease, stale_run_lease, runnable_states, is_lease_active, is_ttl, leased, granted,
  acquire_run_lease, acquire_media_reconciliation_lease, renew_run_lease, release_run_lease,
}

-- A lease is handed out with the next version, and the run carries it.
record Grants (token : String) (ttl : ℕ) (now : ℕ) (s : StoredRun) (l : RunLease) (t : StoredRun)
    : Type 0 where
  pub same_token : l.token ≡ token
  pub next_version : l.version ≡ s.run.lease_version + 1
  pub ends : l.until ≡ now + ttl
  pub stored : t ≡ leased s token (now + ttl) now

acquire-Grants :
    (token : String) (ttl : Number) (now : ℕ) (s : StoredRun) {l : RunLease} {t : StoredRun}
    → acquire_run_lease token ttl now s ≡ ok (some l, t)
    → Grants token (amount ttl) now s l t
unfolding acquire_run_lease
acquire-Grants token ttl now s h = ground arith

acquire_media-Grants :
    (token : String) (ttl : Number) (now : ℕ) (s : StoredRun) {l : RunLease} {t : StoredRun}
    → acquire_media_reconciliation_lease token ttl now s ≡ ok (some l, t)
    → Grants token (amount ttl) now s l t
unfolding acquire_media_reconciliation_lease
acquire_media-Grants token ttl now s h = ground arith

excluded :
    (other : String) (ttl : Number) (later : ℕ) (t : StoredRun) {token : String} {until : ℕ}
    → t.run.lease_token ≡ some token
    → t.run.lease_until ≡ some until
    → is_text token other ≡ false
    → is_blank other ≡ false
    → is_ttl ttl ≡ true
    → later < until
    → acquire_run_lease other ttl later t ≡ ok (none, t)
unfolding acquire_run_lease
excluded other ttl later t ht hu d b v lt = ground arith

excluded_media :
    (other : String) (ttl : Number) (later : ℕ) (t : StoredRun) {token : String} {until : ℕ}
    → t.run.lease_token ≡ some token
    → t.run.lease_until ≡ some until
    → is_blank other ≡ false
    → is_ttl ttl ≡ true
    → later < until
    → acquire_media_reconciliation_lease other ttl later t ≡ ok (none, t)
unfolding acquire_media_reconciliation_lease
excluded_media other ttl later t ht hu b v lt = ground arith

-- While a lease runs, another worker gets nothing, neither for work nor for the reconciliation of
-- media, and its attempt changes nothing.
pub lease_excludes :
    (token other : String) (ttl ttl' : Number) (now later : ℕ) (s : StoredRun) {l : RunLease}
    {t : StoredRun}
    → acquire_run_lease token ttl now s ≡ ok (some l, t)
    → is_text token other ≡ false
    → is_blank other ≡ false
    → is_ttl ttl' ≡ true
    → later < l.until
    → (acquire_run_lease other ttl' later t ≡ ok (none, t))
      × (acquire_media_reconciliation_lease other ttl' later t ≡ ok (none, t))
lease_excludes token other ttl ttl' now later s {t} h d b ok_ttl lt =
    let g = acquire-Grants token ttl now s h in
    let holder : t.run.lease_token ≡ some token = ap (λ x. x.run.lease_token) g.stored in
    let ends : t.run.lease_until ≡ some (now + amount ttl) = ap (λ x. x.run.lease_until) g.stored in
    let running : later < now + amount ttl = omega (arith, g.ends) in
    (
      excluded other ttl' later t holder ends d b ok_ttl running,
      excluded_media other ttl' later t holder ends b ok_ttl running,
    )

-- A lease that has run out does not keep the run: any worker with a valid request gets a runnable
-- run, with a larger version than any lease before.
pub expired_acquired :
    (token : String) (ttl : Number) (now : ℕ) (s : StoredRun)
    → is_blank token ≡ false
    → is_ttl ttl ≡ true
    → is_terminal_status s.run.status ≡ false
    → has_status s.run.status runnable_states ≡ true
    → is_lease_active s.run now ≡ false
    → (l : RunLease) × (acquire_run_lease token ttl now s ≡ ok (some l, leased s token l.until now))
      × (l.version ≡ s.run.lease_version + 1)
      × (l.until ≡ now + amount ttl)
unfolding acquire_run_lease
expired_acquired token ttl now s b v live run free = (
  record { token = token; version = s.run.lease_version + 1; until = now + amount ttl },
  ground arith,
  refl,
  refl,
)

-- What happens to a stored run: the four operations on leases, and any write that leaves the
-- lease as it is.
pub data LeaseStep (s : StoredRun) (t : StoredRun) : Type 0 where
  acquires :
      (token : String) (ttl : Number) (now : ℕ) {l : Option RunLease}
      → acquire_run_lease token ttl now s ≡ ok (l, t)
      → LeaseStep s t
  acquires_media :
      (token : String) (ttl : Number) (now : ℕ) {l : Option RunLease}
      → acquire_media_reconciliation_lease token ttl now s ≡ ok (l, t)
      → LeaseStep s t
  renews :
      (l : RunLease) (ttl now : ℕ) {l' : RunLease}
      → renew_run_lease l ttl now s ≡ ok (l', t)
      → LeaseStep s t
  releases : (l : RunLease) (now : ℕ) → release_run_lease l now s ≡ ok (tt, t) → LeaseStep s t
  writes :
      t.run.lease_token ≡ s.run.lease_token
      → t.run.lease_until ≡ s.run.lease_until
      → t.run.lease_version ≡ s.run.lease_version
      → LeaseStep s t

pub data LeaseReach (s : StoredRun) : StoredRun → Type 0 where
  here : LeaseReach s s
  next : {t u : StoredRun} → LeaseReach s t → LeaseStep t u → LeaseReach s u

acquire-version_le :
    (token : String) (ttl : Number) (now : ℕ) (s : StoredRun) {l : Option RunLease} {t : StoredRun}
    → acquire_run_lease token ttl now s ≡ ok (l, t)
    → s.run.lease_version ≤ t.run.lease_version
unfolding acquire_run_lease granted
acquire-version_le token ttl now s h = ground arith

acquire_media-version_le :
    (token : String) (ttl : Number) (now : ℕ) (s : StoredRun) {l : Option RunLease} {t : StoredRun}
    → acquire_media_reconciliation_lease token ttl now s ≡ ok (l, t)
    → s.run.lease_version ≤ t.run.lease_version
unfolding acquire_media_reconciliation_lease granted
acquire_media-version_le token ttl now s h = ground arith

step-version_le : {s t : StoredRun} → LeaseStep s t → s.run.lease_version ≤ t.run.lease_version
unfolding renew_run_lease release_run_lease
step-version_le {s} (acquires token ttl now h) = acquire-version_le token ttl now s h
step-version_le {s} (acquires_media token ttl now h) = acquire_media-version_le token ttl now s h
step-version_le (renews l ttl now h) = ground arith
step-version_le (releases l now h) = ground arith
step-version_le (writes a b c) = omega arith

reach-version_le : {s t : StoredRun} → LeaseReach s t → s.run.lease_version ≤ t.run.lease_version
reach-version_le here = omega arith
reach-version_le (next r st) = omega (arith, reach-version_le r, step-version_le st)

outdated_refused :
    (l : RunLease) (ttl now : ℕ) (s : StoredRun)
    → l.version < s.run.lease_version
    → (renew_run_lease l ttl now s ≡ err stale_run_lease)
      × (release_run_lease l now s ≡ err stale_run_lease)
unfolding renew_run_lease release_run_lease
outdated_refused l ttl now s lt = (ground arith, ground arith)

-- Fencing: once a later lease has been handed out, an earlier one neither renews nor releases,
-- whatever happened between and after, even if both bear one token.
pub superseded_lease_refused :
    (token token' : String) (ttl ttl' : Number) (now now' again later : ℕ) (s t : StoredRun)
    {l l' : RunLease} {s' t' u : StoredRun}
    → acquire_run_lease token ttl now s ≡ ok (some l, s')
    → LeaseReach s' t
    → acquire_run_lease token' ttl' now' t ≡ ok (some l', t')
    → LeaseReach t' u
    → (renew_run_lease l again later u ≡ err stale_run_lease)
      × (release_run_lease l later u ≡ err stale_run_lease)
superseded_lease_refused token token' ttl ttl' now now' again later s t {l} {u = u} h r h' r' =
    let g = acquire-Grants token ttl now s h in
    let g' = acquire-Grants token' ttl' now' t h' in
    outdated_refused l again later u (
      omega (
        arith,
        g.next_version,
        ap (λ x. x.run.lease_version) g.stored,
        reach-version_le r,
        ap (λ x. x.run.lease_version) g'.stored,
        reach-version_le r',
      ))
