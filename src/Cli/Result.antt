-- ===== src/Cli/Result.antt =====
-- The command prints the pid and the old priority that the kernel packs into one number.
use nice_system_calls.Common.{
  ℕ, ◌+◌, ◌*◌, ◌/◌, ◌%◌, ◌≤◌, ◌<◌, ◌≡◌, ap, ◌∙◌, ◌≢◌, ◌⊎◌, inl, inr, false, List, [], ◌∷◌, arith,
  ReturnsOr, ReturnsOr-bind, ==_iff, true, ◌||◌, ◌^◌,
}
use nice_system_calls.Common.Int.{ℤ, pos, negsuc, ltb_ℤ, to_int}
use nice_system_calls.Queue.{nproc}
use nice_system_calls.Proc.{Table, Proc, Services, Reply, zombie, proc_at}
use nice_system_calls.Proc.Inv.{Inv}
use nice_system_calls.Proc.Calls.{nice, mod_base, has_pid}
use nice_system_calls.Proc.Calls.Nice.{Niced, nice_lem}
use nice_system_calls.Cli.{Output, prints, ended, shown, int_div, int_mod, atoi, renice, main}

packed :
    (pid old : ℕ)
    → old ≤ 4
    → (int_div (pos (pid * mod_base + old)) ≡ pos pid)
      × (int_mod (pos (pid * mod_base + old)) ≡ pos old)
packed pid old h =
    let q : (pid * mod_base + old) / mod_base ≡ pid = omega arith in
    let r : (pid * mod_base + old) % mod_base ≡ old = omega arith in
    (ap (λ n. pos n) q, ap (λ n. pos n) r)

-- What the command with the number `pid` has done when it prints, or is ended.
abbrev pub Told : Table → ℕ → ℤ → ℕ → Output × Table → Type 0
Told t me pid priority r =
    ((i : ℕ) × (i < nproc)
      × (pos (proc_at t i).pid ≡ pid)
      × (r.0 ≡ prints pid (pos (proc_at t i).priority))
      × ((proc_at r.1 i).priority ≡ priority))
    ⊎ (((i : ℕ) → i < nproc → pos (proc_at t i).pid ≢ pid)
        × (r.0 ≡ ended)
        × ((proc_at r.1 me).state ≡ zombie))

has_pid-pos : (pid : ℤ) (p : Proc) → has_pid pid p ≡ true → pos p.pid ≡ pid
has_pid-pos (pos n) p e = ap (λ k. pos k) ((==_iff p.pid n).0 e)
has_pid-pos (negsuc n) p e = absurd (ground arith)

has_pid-ne : (pid : ℤ) (p : Proc) → has_pid pid p ≡ false → pos p.pid ≢ pid
has_pid-ne (pos n) p e same = ground arith
has_pid-ne (negsuc n) p e same = ground arith

module _ (S : Services) where
  open S use {World}

  told :
      {t : Table} (me : ℕ) (pid : ℤ) (priority : ℕ) (reply : Reply) (t1 : Table)
      → Inv t
      → t.nextpid ≤ 33038210
      → Niced S me pid priority t (reply, t1)
      → Told t me pid priority (shown reply, t1)
  told {t} me pid priority reply t1 v few (inl (i, (h, e, first), k)) =
      let is : pos (proc_at t i).pid ≡ pid = has_pid-pos pid (proc_at t i) e in
      let (a, b) = packed (proc_at t i).pid (proc_at t i).priority (v.capped i h) in
      let n = (proc_at t i).pid * mod_base + (proc_at t i).priority in
      let small : n < 2 ^ 31 = omega (arith, v.fresh i h, v.capped i h) in
      let int : to_int (n % 2 ^ 32) ≡ pos n = ground arith in
      inl (
        i,
        h,
        is,
        ap (λ r. shown r) k.reply
            ∙ rw (int, a, b) (ap (λ n. prints n (pos (proc_at t i).priority)) is),
        ap (λ (p : Proc). p.priority) (k.slots i) ∙ ground arith,
      )
  told {t} me pid priority reply t1 v few (inr (none_such, a, e, z)) =
      inr (λ i h. has_pid-ne pid (proc_at t i) (none_such i h), ap (λ r. shown r) e, z)

  -- The command `nice pid priority` with a priority from 1 to 4, given by a live process on a well
  -- formed table whose pids are below 33038210, so that the number into which the kernel packs pid
  -- and priority is an int, ends, or the kernel panics and the caller is init. It prints the pid
  -- and the priority that the process had, which now has the new one; or no process has the pid,
  -- and the kernel has ended the command, whose process is a zombie.
  pub main_lem :
      {t : Table} (me : ℕ) (arg1 arg2 : List ℕ) (priority : ℕ) (w : World)
      → Inv t
      → t.nextpid ≤ 33038210
      → atoi arg2 ≡ pos priority
      → 1 ≤ priority
      → priority ≤ 4
      → me < nproc
      → (proc_at t me).pid ≢ 0
      → ReturnsOr
          (me ≡ t.initproc)
          (λ (r : Output × Table × World). Told t me (atoi arg1) priority (r.0, r.1))
          (main S me (arg1 ∷ arg2 ∷ []) t w)
  unfolding main renice
  main_lem {t} me arg1 arg2 priority w v few is lo hi h live =
      let fits : (ltb_ℤ (pos priority) (pos 0) || ltb_ℤ (pos 5) (pos priority)) ≡ false =
        ground arith in
      rw (is, fits)
        (ReturnsOr-bind _ _ _ (nice S me (atoi arg1) (pos priority) t w) _
          (nice_lem S me (atoi arg1) priority w v lo hi h live)
          (λ (r : Reply × Table × World) k. told me (atoi arg1) priority r.0 r.1 v few k))
