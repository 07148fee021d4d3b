-- ===== src/Log/Crash.antt =====
-- Crashes in `commit` and in recoveries after it.
use nice_system_calls.Common.{
  ℕ, ◌<◌, ◌≡◌, refl, sym, subst, ◌⊎◌, inl, inr, [], ◌∷◌, length, if◌then◌else◌,
}
use nice_system_calls.Log.{Log, Disk, Store, bread, commit, recover_from_log}
use nice_system_calls.Log.Disks.{AllDisks, InDisks, All-InDisks, is_in, IsHome, AllHome, Quiet}
use nice_system_calls.Log.Commit.{Recoverable, restart, commit-Recoverable, recover_lem}

-- The disks that crashes may leave: one in `commit`, or after all its writes, and then any number in
-- recoveries.
pub data Crashed (log : Log) (s : Store) : Disk → Type 0 where
  in_commit :
      {d : Disk} → InDisks d ((commit log s).1.disk ∷ (commit log s).1.history) → Crashed log s d
  in_recovery :
      {d : Disk} (c : Disk)
      → Crashed log s c
      → InDisks d (
          (recover_from_log log.start (restart c)).disk
          ∷ (recover_from_log log.start (restart c)).history)
      → Crashed log s d

module _ (log : Log) (s : Store) (homes : AllHome log.start log.size log.blocks)
    (fits : length log.blocks < log.size) (fresh : s.history ≡ [])
    (unlogged : s.disk log.start 0 ≡ 0) where
  abbrev Good : Disk → Type 0
  Good = Recoverable log.start log.size log.blocks (λ b. bread b s) s.disk

  Crashed-Good : {d : Disk} → Crashed log s d → Good d
  Crashed-Good (in_commit {d} m) =
      let quiet : Quiet log.start log.size s.disk s.disk = record {
        empty = unlogged;
        same = λ b h. refl;
      } in
      let (last, all) =
        commit-Recoverable log.start log.size log.blocks (λ b. bread b s) s.disk homes fits log s
          refl refl quiet (subst (AllDisks (Quiet log.start log.size s.disk)) (sym fresh) tt)
          (λ b h. refl) in
      All-InDisks Good ((commit log s).1.disk ∷ (commit log s).1.history) d (last, all) m
  Crashed-Good (in_recovery {d} c k m) =
      let (ends, all) =
        recover_lem log.start log.size log.blocks (λ b. bread b s) s.disk c homes fits
          (Crashed-Good k) in
      All-InDisks Good
        ((recover_from_log log.start (restart c)).disk
          ∷ (recover_from_log log.start (restart c)).history)
        d (elim ends [ inl q ↦ inl q | inr q ↦ inr (inr q) ], all) m

  -- A transaction takes hold as a whole or not at all. Where the blocks of a transaction lie
  -- outside the log, are fewer than the blocks of the log, and the log holds no earlier
  -- transaction, then after a crash at any write of `commit`, `recover_from_log` leaves each block
  -- outside the log either all as on the disk before the commit, or with the cached content for all
  -- the blocks of the transaction and as before for the others.
  pub crash_atomic :
      {d : Disk}
      → Crashed log s d
      → ((b : ℕ)
          → IsHome log.start log.size b
          → (recover_from_log log.start (restart d)).disk b ≡ s.disk b)
        ⊎ ((b : ℕ)
            → IsHome log.start log.size b
            → (recover_from_log log.start (restart d)).disk b
              ≡ (if is_in b log.blocks then bread b s else s.disk b))
  crash_atomic {d} k =
      elim (recover_lem log.start log.size log.blocks (λ b. bread b s) s.disk d homes fits
        (Crashed-Good k)).0 [ inl q ↦ inl q.same | inr q ↦ inr q.same ]
