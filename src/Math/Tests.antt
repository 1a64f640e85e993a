-- ===== src/Math/Tests.antt =====
-- Runs of math.c.
use sandnix.Prelude.{◌/◌, ◌%◌, ◌≡◌, refl, arith}
use sandnix.Math.{div64, mod64, division_loop, division_step}
use sandnix.Math.Division.{div64-mod64}

div64_runs : div64 1000 7 ≡ 142
unfolding div64 division_loop division_step
div64_runs = refl

div64-mod64_example : (div64 1000 7 ≡ 1000 / 7) × (mod64 1000 7 ≡ 1000 % 7)
div64-mod64_example = div64-mod64 1000 7 (omega arith) (omega arith)
