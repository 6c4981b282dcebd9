-- ===== src/Healthdash/Scrolling.antt =====
-- Where the thumb of internal/healthdash/scrollbar.go stands.
use native.Mathlib.Nat.{div-le_of_le-mul, mul-div_right, mul-le-mul_right, zero-div}
use gstop.Base.{ℕ, ◌+◌, ◌-◌, ◌*◌, ◌≤◌, ◌<◌, ◌≡◌, min, Bool, true, ◌||◌, leb, ◌==◌, arith, if-elim}
use gstop.Healthdash.{
  ScrollbarGeometry, hidden, track, thumb_height, thumb_offset, layout, compute_scrollbar,
}

-- The thumb is a row at least and lies in the track, and the track lies in the viewport.
pub record IsInside (viewport : ℕ) (g : ScrollbarGeometry) : Type 0 where
  pub starts : g.track_start ≤ g.thumb_start
  pub grows : g.thumb_start ≤ g.thumb_end
  pub ends : g.thumb_end ≤ g.track_end
  pub fits : g.track_end < viewport

thumb_offset-le : (travel max_scroll scroll : ℕ) → thumb_offset travel max_scroll scroll ≤ travel
unfolding thumb_offset
thumb_offset-le travel max_scroll scroll = ground (
  arith,
  div-le_of_le-mul max_scroll {m = min scroll max_scroll * travel} {n = travel}
      (mul-le-mul_right travel (omega arith)),
)

thumb_offset_top : (travel max_scroll : ℕ) → thumb_offset travel max_scroll 0 ≡ 0
unfolding thumb_offset
thumb_offset_top travel max_scroll = ground (arith, zero-div max_scroll)

thumb_offset_bottom :
    (travel max_scroll scroll : ℕ)
    → 0 < max_scroll
    → max_scroll ≤ scroll
    → thumb_offset travel max_scroll scroll ≡ travel
unfolding thumb_offset
thumb_offset_bottom travel max_scroll scroll p h =
    let e : min scroll max_scroll ≡ max_scroll = omega arith in
    rw e ground (arith, mul-div_right travel p)

thumb_height_bounds :
    (height document viewport : ℕ)
    → 0 < height
    → (1 ≤ thumb_height height document viewport) × (thumb_height height document viewport ≤ height)
unfolding thumb_height
thumb_height_bounds height document viewport h = (omega arith, omega arith)

track_bounds :
    (viewport : ℕ)
    → 0 < viewport
    → (0 < (track viewport).2) × ((track viewport).1 + (track viewport).2 ≤ viewport)
unfolding track
track_bounds viewport h = (ground arith, ground arith)

layout-IsInside :
    (document viewport scroll : ℕ) (t : Bool × ℕ × ℕ)
    → 0 < t.2
    → t.1 + t.2 ≤ viewport
    → IsInside viewport (layout document viewport scroll t)
unfolding layout
layout-IsInside document viewport scroll t h k =
    let b = thumb_height_bounds t.2 document viewport h in
    let o =
      thumb_offset-le (t.2 - thumb_height t.2 document viewport) (document - viewport) scroll in
    record {
      starts = omega arith;
      grows = omega (arith, b.0);
      ends = omega (arith, b.0, b.1, o);
      fits = omega (arith, h, k);
    }

-- Where the scrollbar is visible, the thumb is a row at least and lies in the track, and the track
-- lies in the viewport, whatever the scroll.
compute_scrollbar-IsInside :
    (document viewport scroll : ℕ)
    → (compute_scrollbar document viewport scroll).visible ≡ true
    → IsInside viewport (compute_scrollbar document viewport scroll)
unfolding compute_scrollbar
compute_scrollbar-IsInside document viewport scroll v =
    if-elim (λ (g : ScrollbarGeometry). g.visible ≡ true → IsInside viewport g)
      (leb document viewport || (document == 0) || (viewport == 0)) hidden
      (layout document viewport scroll (track viewport)) (λ e q. absurd (let h : ⊥ = cc in h))
      (λ e q.
        let h : 0 < viewport = ground arith in
        let b = track_bounds viewport h in
        layout-IsInside document viewport scroll (track viewport) b.0 b.1)
      v

-- Of a document larger than the viewport, the thumb begins with the track at the scroll 0, and ends
-- with it from the last scroll on.
compute_scrollbar_ends :
    (document viewport scroll : ℕ)
    → 0 < viewport
    → viewport < document
    → document - viewport ≤ scroll
    → ((compute_scrollbar document viewport 0).thumb_start
        ≡ (compute_scrollbar document viewport 0).track_start)
      × ((compute_scrollbar document viewport scroll).thumb_end
          ≡ (compute_scrollbar document viewport scroll).track_end)
unfolding compute_scrollbar layout
compute_scrollbar_ends document viewport scroll h k l =
    let t = track viewport in
    let travel = t.2 - thumb_height t.2 document viewport in
    let b = thumb_height_bounds t.2 document viewport (track_bounds viewport h).0 in
    let top = thumb_offset_top travel (document - viewport) in
    let p : 0 < document - viewport = omega arith in
    let bottom = thumb_offset_bottom travel (document - viewport) scroll p l in
    (ground (arith, top), ground (arith, bottom, b))

compute_scrollbar-visible :
    (document viewport scroll : ℕ)
    → 0 < viewport
    → viewport < document
    → (compute_scrollbar document viewport scroll).visible ≡ true
unfolding compute_scrollbar layout
compute_scrollbar-visible document viewport scroll h k = ground arith

-- Of a document larger than the viewport, whatever the scroll, the thumb is a row at least and lies in
-- the track, and the track lies in the viewport; the thumb begins with the track at the scroll 0, and
-- ends with it from the last scroll on.
pub compute_scrollbar_lem :
    (document viewport scroll last : ℕ)
    → 0 < viewport
    → viewport < document
    → document - viewport ≤ last
    → IsInside viewport (compute_scrollbar document viewport scroll)
      × ((compute_scrollbar document viewport 0).thumb_start
          ≡ (compute_scrollbar document viewport 0).track_start)
      × ((compute_scrollbar document viewport last).thumb_end
          ≡ (compute_scrollbar document viewport last).track_end)
compute_scrollbar_lem document viewport scroll last h k l =
    let e = compute_scrollbar_ends document viewport last h k l in
    (
      compute_scrollbar-IsInside document viewport scroll
          (compute_scrollbar-visible document viewport scroll h k),
      e.0,
      e.1,
    )
