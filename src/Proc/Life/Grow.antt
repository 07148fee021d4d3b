-- ===== src/Proc/Life/Grow.antt =====
-- `growproc` changes the size of the process and nothing else.
use nice_system_calls.Common.{
  ℕ, zero, suc, ◌+◌, ◌-◌, ◌%◌, ◌^◌, ◌<◌, ◌≡◌, refl, sym, ap, ◌∙◌, ◌≢◌, ◌⊎◌, inl, inr, arith, ◌==◌,
  Bool-cases, Returns,
}
use nice_system_calls.Common.Int.{ℤ, pos, negsuc}
use nice_system_calls.Queue.{nproc}
use nice_system_calls.Proc.{Table, Proc, Services, proc_at}
use nice_system_calls.Proc.Life.{growproc}
use nice_system_calls.Proc.Inv.{
  Inv, Keeps, Frame-refl, put-ok, load-slot, written, written-Keeps, proc_at-written,
}

-- A reply of -1 leaves the table as it was, and one of 0 changes at most the size of the caller.
pub record Grown (me : ℕ) (t : Table) (r : ℤ × Table) : Type 0 where
  pub keeps : Keeps t r.1
  pub replied : (r.0 ≡ pos 0) ⊎ ((r.0 ≡ negsuc 0) × (r.1 ≡ t))
  pub mine : proc_at r.1 me ≡ record (proc_at t me) { sz = (proc_at r.1 me).sz }
  pub others : (j : ℕ) → j ≢ me → proc_at r.1 j ≡ proc_at t j

same-Grown :
    {t : Table} (me : ℕ) (res : ℤ) → Inv t → (res ≡ pos 0) ⊎ (res ≡ negsuc 0) → Grown me t (res, t)
same-Grown {t} me res v e = record {
  keeps = (v, Frame-refl t);
  replied = elim e [ inl a ↦ inl a | inr b ↦ inr (b, refl) ];
  mine = refl;
  others = λ j ne. refl;
}

resized-Grown :
    {t : Table} (me size : ℕ)
    → Inv t
    → me < nproc
    → Grown me t (pos 0, written t me (record (proc_at t me) { sz = size }))
resized-Grown {t} me size v h =
    let q : Proc = record (proc_at t me) { sz = size } in
    let at : proc_at (written t me q) me ≡ q = proc_at-written t me me q v.size h ∙ ground arith in
    record {
      keeps = written-Keeps v me h q refl refl (v.files me h) (v.live me h) (λ e. e);
      replied = inl refl;
      mine = at ∙ ap (λ n. record (proc_at t me) { sz = n }) (ap (λ (x : Proc). x.sz) (sym at));
      others = λ j ne. proc_at-written t me j q v.size h ∙ ground arith;
    }

module _ (S : Services) where
  open S use {World, allocuvm, deallocuvm}

  -- On a well formed table `growproc` for a slot of the table returns 0, or -1 with the table
  -- unchanged. At most the size of the caller changes, and the table stays well formed.
  pub growproc_lem :
      {t : Table} (me : ℕ) (n : ℤ) (w : World)
      → Inv t
      → me < nproc
      → Returns (λ (r : ℤ × Table × World). Grown me t (r.0, r.1)) (growproc S me n t w)
  unfolding growproc
  growproc_lem {t} me (pos zero) w v h = same-Grown me (pos 0) v (inl refl)
  growproc_lem {t} me (pos (suc n)) w v h =
      let grown =
        allocuvm (proc_at t me).pgdir (proc_at t me).sz (((proc_at t me).sz + suc n) % 2 ^ 32) w in
      rw (load-slot t me v.size h) (elim (Bool-cases (grown.0 == 0)) [
        | inl fails ↦ rw fails (same-Grown me (negsuc 0) v (inr refl))
        | inr done ↦
            rw (done, put-ok t me (record (proc_at t me) { sz = grown.0 }) v.size h)
              (resized-Grown me grown.0 v h)
      ])
  growproc_lem {t} me (negsuc n) w v h =
      let shrunk =
        deallocuvm (proc_at t me).pgdir (proc_at t me).sz
          (((proc_at t me).sz + 2 ^ 32 - suc n) % 2 ^ 32) w in
      rw (load-slot t me v.size h) (elim (Bool-cases (shrunk.0 == 0)) [
        | inl fails ↦ rw fails (same-Grown me (negsuc 0) v (inr refl))
        | inr done ↦
            rw (done, put-ok t me (record (proc_at t me) { sz = shrunk.0 }) v.size h)
              (resized-Grown me shrunk.0 v h)
      ])
