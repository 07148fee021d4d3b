-- ===== src/Log/Tests.antt =====
-- A transaction of two blocks, 50 and 60, with the log in blocks 2 to 32.
use nice_system_calls.Common.{
  ℕ, zero, suc, ◌≡◌, ◌⊎◌, inl, inr, refl, [], ◌∷◌, some, none, true, false, arith, if◌then◌else◌,
  ◌==◌,
}
use nice_system_calls.Log.{
  Log, Store, bread, commit, recover_from_log, install_from, write_from, write_head, head_block,
}
use nice_system_calls.Log.Disks.{is_in, IsHome, AllHome}
use nice_system_calls.Log.Commit.{restart}
use nice_system_calls.Log.Crash.{in_commit, crash_atomic}
use nice_system_calls.Log.Space.{Use}

abbrev two : Log
two = record { start = 2; size = 31; outstanding = 0; committing = true; blocks = 50 ∷ 60 ∷ [] }

abbrev store : Store
store = record {
  disk = λ b i. 0;
  cached = λ b. if b == 50 then some (λ i. 5) else if b == 60 then some (λ i. 6) else none;
  history = [];
}

homes : AllHome 2 31 (50 ∷ 60 ∷ [])
homes zero h = inr (omega arith)
homes (suc zero) h = inr (omega arith)
homes (suc (suc k)) h = absurd (omega arith)

commit_done : (commit two store).1.disk 60 7 ≡ 6
unfolding commit install_from write_from write_head head_block
commit_done = refl

crash_example :
    ((b : ℕ)
      → IsHome 2 31 b
      → (recover_from_log 2 (restart (commit two store).1.disk)).disk b ≡ store.disk b)
    ⊎ ((b : ℕ)
        → IsHome 2 31 b
        → (recover_from_log 2 (restart (commit two store).1.disk)).disk b
          ≡ (if is_in b (50 ∷ 60 ∷ []) then bread b store else store.disk b))
crash_example = crash_atomic two store homes (omega arith) refl refl (in_commit (inl refl))

abbrev empty : Log
empty = record { start = 2; size = 30; outstanding = 0; committing = false; blocks = [] }

abbrev one_op : Use
one_op = record { log = record empty { outstanding = 1 }; left = 10 ∷ [] }
