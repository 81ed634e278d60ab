-- ===== src/App/Schedule.antt =====
-- `App::schedule_sync` and the callback for a change of the snapshot, src/daemon/app.cpp.
use nmos_client.Base.{
  ℕ, Bool, true, false, not, ◌&&◌, ℤ, ◌≡◌, refl, arith, ltb_ℤ, leb_ℤ, ◌≤ℤ◌, Bool-cases, inl, inr,
  ◌⊎◌,
}
use nmos_client.Json.{Json}
use nmos_client.Dto.Types.{SnapshotChangedMessage}
use nmos_client.App.State.{App}
use nmos_client.App.Handlers.{
  raise, schedule_sync, on_snapshot_changed, needs_resync_without_newer_revision,
}

pub raise_bounds :
    (revision pending : ℤ)
    → (revision ≤ℤ raise revision pending) × (pending ≤ℤ raise revision pending)
raise_bounds revision pending = elim (Bool-cases (ltb_ℤ pending revision)) [
  | inl e ↦ ground arith
  | inr e ↦ ground arith
]

module _ {J : Json} {S : Type 0} where
  -- The condition of the early return.
  abbrev ignored : App J S → ℤ → Bool
  ignored a revision =
      not a.force_sync_pending
      && (leb_ℤ revision a.state_store.status.last_applied_revision
          && not (needs_resync_without_newer_revision a))

  ignored_lem :
      (a : App J S) (revision : ℤ)
      → ignored a revision ≡ true
      → (a.force_sync_pending ≡ false)
        × (revision ≤ℤ a.state_store.status.last_applied_revision)
        × (a.state_store.status.protection_mode ≡ false)
        × (a.state_store.status.streams_registered ≡ true)
  ignored_lem a revision e = (ground arith, ground arith, ground arith, ground arith)

  -- What a call that is not ignored leaves: a synchronisation is pending, for a revision that is at
  -- least the one asked for, and no retry delay holds it back.
  abbrev pub Scheduled : ℤ → App J S → Type 0
  Scheduled revision a =
      (a.sync_pending ≡ true) × (revision ≤ℤ a.pending_revision) × (a.next_sync_not_before ≡ 0)

  -- A call of `schedule_sync` either leaves the state alone, and then no signal forces a
  -- synchronisation, the revision is not newer than the applied one, there is no protection mode
  -- and streams are registered; or it leaves a synchronisation pending, without a retry delay, for
  -- a revision that is no older than the one asked for and than the one that was pending.
  pub schedule_sync_lem :
      (now : ℕ) (revision : ℤ) (a : App J S)
      → ((schedule_sync now revision a ≡ a)
          × (a.force_sync_pending ≡ false)
          × (revision ≤ℤ a.state_store.status.last_applied_revision)
          × (a.state_store.status.protection_mode ≡ false)
          × (a.state_store.status.streams_registered ≡ true))
        ⊎ (Scheduled revision (schedule_sync now revision a)
            × (a.pending_revision ≤ℤ (schedule_sync now revision a).pending_revision))
  unfolding schedule_sync
  schedule_sync_lem now revision a = elim (Bool-cases (ignored a revision)) [
    | inl e ↦ let (f, r, p, t) = ignored_lem a revision e in rw e (inl (refl, f, r, p, t))
    | inr e ↦
        let bounds = raise_bounds revision a.pending_revision in
        rw e (inr ((refl, bounds.0, refl), bounds.1))
  ]

  -- A change that the backend announces is never ignored: whatever the daemon has applied, it leaves
  -- a synchronisation pending for that revision or a newer one, without a retry delay.
  pub on_snapshot_changed-Scheduled :
      (now : ℕ) (message : SnapshotChangedMessage) (a : App J S)
      → Scheduled message.revision (on_snapshot_changed now message a)
  unfolding on_snapshot_changed schedule_sync
  on_snapshot_changed-Scheduled now message a =
      (refl, (raise_bounds message.revision a.pending_revision).0, refl)

  -- In protection mode, or while no stream is registered, no call of `schedule_sync` is ignored.
  pub unregistered-Scheduled :
      (now : ℕ) (revision : ℤ) (a : App J S)
      → needs_resync_without_newer_revision a ≡ true
      → Scheduled revision (schedule_sync now revision a)
  unfolding schedule_sync
  unregistered-Scheduled now revision a h = elim (schedule_sync_lem now revision a) [
    | inl p ↦ absurd (ground (arith, p.3, p.4, h))
    | inr scheduled ↦ scheduled.0
  ]
