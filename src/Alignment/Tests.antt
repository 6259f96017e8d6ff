-- ===== src/Alignment/Tests.antt =====
-- Runs of `AlignUp` and `AlignDown`.
use dd_framework.Base.{◌≡◌, ◌^◌, refl, arith}
use dd_framework.Alignment.{align_up, align_down}
use dd_framework.Alignment.Multiple.{RoundsUp, align_up_lem}

align_up-test : align_up 13 8 ≡ 16
unfolding align_up
align_up-test = refl

align_down-test : align_down 13 8 ≡ 8
unfolding align_down
align_down-test = refl

align_up_lem_example : RoundsUp (2 ^ 3) 13 (align_up 13 (2 ^ 3))
align_up_lem_example = align_up_lem 3 13 (omega arith) (omega arith)
