-- ===== src/Cli/Tests.antt =====
-- The command `nice 2 4`, given by the shell with pid 2.
use nice_system_calls.Common.{ℕ, ◌≡◌, refl, [], ◌∷◌, true, arith, ReturnsOr}
use nice_system_calls.Common.Int.{pos}
use nice_system_calls.Proc.{Table}
use nice_system_calls.Proc.Sample.{sample, sample-Inv, plain}
use nice_system_calls.Cli.{Output, atoi, atoi_from, printint, printed, fill, emit, main}
use nice_system_calls.Cli.Decimal.{atoi-printint}
use nice_system_calls.Cli.Result.{Told, main_lem}

printint_1024 : printint 10 true (pos 1024) ≡ b'1' ∷ b'0' ∷ b'2' ∷ b'4' ∷ []
unfolding printint printed fill emit
printint_1024 = refl

atoi_example : atoi (printint 10 true (pos 1024)) ≡ pos 1024
atoi_example = atoi-printint true 1024 (omega arith)

main_example :
    ReturnsOr
      (1 ≡ sample.initproc)
      (λ (r : Output × Table × ℕ). Told sample 1 (atoi (b'2' ∷ [])) 4 (r.0, r.1))
      (main plain 1 ((b'2' ∷ []) ∷ (b'4' ∷ []) ∷ []) sample 0)
unfolding atoi_from
main_example =
    main_lem plain 1 (b'2' ∷ []) (b'4' ∷ []) 4 0 sample-Inv (omega arith) refl (omega arith)
      (omega arith) (omega arith) (omega arith)
