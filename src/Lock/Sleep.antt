-- ===== src/Lock/Sleep.antt =====
-- A release of a sleep lock makes every process that waits runnable.
use nice_system_calls.Common.{ℕ, ◌≡◌, refl, false, [], ◌∷◌, Returns, Returns-bind}
use nice_system_calls.Proc.{Table}
use nice_system_calls.Proc.Inv.{Inv}
use nice_system_calls.Proc.Queueing.{wakeups}
use nice_system_calls.Proc.Queueing.Wake.{wakeups-one_lem, Maps, woken}
use nice_system_calls.Lock.{Sleeplock, releasesleep}

-- On a well formed table `releasesleep` returns: the lock is free, exactly the processes that sleep
-- on its address are made runnable, and the table stays well formed.
pub releasesleep_lem :
    {t : Table} (chan : ℕ) (l : Sleeplock)
    → Inv t
    → Returns
        (λ (r : Sleeplock × Table). (r.0.slocked ≡ false) × Inv r.1 × Maps (λ j. woken chan) t r.1)
        (releasesleep chan l t)
unfolding releasesleep
releasesleep_lem {t} chan l v =
    Returns-bind _ _ (wakeups (chan ∷ []) t) _ (wakeups-one_lem chan v)
      (λ (t1 : Table) k. (refl, k.0, k.1))
