-- ===== src/Healthdash/Examples.antt =====
-- Tests and instances for the scrollbar.
use gstop.Base.{◌≡◌, refl, arith}
use gstop.Healthdash.{compute_scrollbar, layout, track, thumb_height, thumb_offset}
use gstop.Healthdash.Scrolling.{IsInside, compute_scrollbar_lem}

-- Forty rows of which ten show: a track of eight rows, a thumb of two, in the middle.
thumb_in_the_middle : (compute_scrollbar 40 10 15).thumb_start ≡ 4
unfolding compute_scrollbar layout track thumb_height thumb_offset
thumb_in_the_middle = refl

compute_scrollbar_lem_example :
    IsInside 10 (compute_scrollbar 40 10 15)
    × ((compute_scrollbar 40 10 0).thumb_start ≡ (compute_scrollbar 40 10 0).track_start)
    × ((compute_scrollbar 40 10 90).thumb_end ≡ (compute_scrollbar 40 10 90).track_end)
compute_scrollbar_lem_example =
    compute_scrollbar_lem 40 10 15 90 (omega arith) (omega arith) (omega arith)
