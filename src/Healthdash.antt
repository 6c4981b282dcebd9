-- ===== src/Healthdash.antt =====
-- ComputeScrollbar of internal/healthdash/scrollbar.go. A negative height hides the scrollbar and a
-- negative scroll is set to 0, so both are the number 0 here.
mod Scrolling
mod Examples
use gstop.Base.{
  ℕ, ◌+◌, ◌-◌, ◌*◌, ◌/◌, min, max, Bool, true, false, ◌||◌, leb, ltb, ◌==◌, if◌then◌else◌, ◌&&◌,
}

pub record ScrollbarGeometry : Type 0 where
  pub visible : Bool
  pub arrows : Bool
  pub track_start : ℕ
  pub track_end : ℕ
  pub thumb_start : ℕ
  pub thumb_end : ℕ

abbrev pub hidden : ScrollbarGeometry
hidden = record {
  visible = false;
  arrows = false;
  track_start = 0;
  track_end = 0;
  thumb_start = 0;
  thumb_end = 0;
}

-- The first row of the track, and how many rows it has.
unfoldable pub track : ℕ → Bool × ℕ × ℕ
track viewport = if leb 3 viewport then (true, 1, viewport - 2) else (false, 0, viewport)

unfoldable pub thumb_height : ℕ → ℕ → ℕ → ℕ
thumb_height track_height document viewport =
    min track_height (max 1 (track_height * viewport / document))

-- How far down the track the thumb begins.
unfoldable pub thumb_offset : ℕ → ℕ → ℕ → ℕ
thumb_offset travel max_scroll scroll =
    if ltb 0 travel && ltb 0 max_scroll then min scroll max_scroll * travel / max_scroll else 0

-- The heights of a track and of the thumb in it.
unfoldable pub layout : ℕ → ℕ → ℕ → Bool × ℕ × ℕ → ScrollbarGeometry
layout document viewport scroll (arrows, start, height) =
    let thumb = thumb_height height document viewport in
    let thumb_start = start + thumb_offset (height - thumb) (document - viewport) scroll in
    record {
      visible = true;
      arrows = arrows;
      track_start = start;
      track_end = (start + height) - 1;
      thumb_start = thumb_start;
      thumb_end = (thumb_start + thumb) - 1;
    }

unfoldable pub compute_scrollbar : ℕ → ℕ → ℕ → ScrollbarGeometry
compute_scrollbar document viewport scroll =
    if leb document viewport || (document == 0) || (viewport == 0)
    then hidden
    else layout document viewport scroll (track viewport)
