-- ===== src/Surface/Lines/Exact.antt =====
-- The rectangles that are reported cover exactly the lines that are updated, and these are drawn unless
-- the frame is shown in place.
use mathlib.Core.Path.{subst}
use citrix_vgpu.Prelude.{
  sym, ap, ◌∙◌, ℕ, zero, suc, ◌+◌, ◌==◌, ◌≡◌, ◌≤◌, ◌||◌, ◌&&◌, not, leb, ltb, Bool, true, false,
  Option, none, some, List, [], ◌∷◌, arith, refl, inl, inr, Option-cases,
}
use citrix_vgpu.Vga.Memory.{Vram}
use citrix_vgpu.Surface.Lines.{
  Frame, Cursor, Event, line, rectangle, flush, start_at, advance, line_addr, line_update,
  draw_lines,
}

abbrev pub is_updated : ℕ → List Event → Bool
is_updated k [] = false
is_updated k (line y a d ∷ l) = y == k || is_updated k l
is_updated k (rectangle y h ∷ l) = is_updated k l

abbrev pub is_drawn : ℕ → List Event → Bool
is_drawn k [] = false
is_drawn k (line y a d ∷ l) = (d && y == k) || is_drawn k l
is_drawn k (rectangle y h ∷ l) = is_drawn k l

abbrev pub is_reported : ℕ → List Event → Bool
is_reported k [] = false
is_reported k (line y a d ∷ l) = is_reported k l
is_reported k (rectangle y h ∷ l) = (leb y k && ltb k (y + h)) || is_reported k l

-- Lines that are drawn and not yet reported
abbrev pending : ℕ → ℕ → Option ℕ → Bool
pending k y none = false
pending k y (some s) = leb s k && ltb k y

abbrev Started : ℕ → Option ℕ → Type 0
Started y none = Unit {0}
Started y (some s) = s ≤ y

flush_reported :
    (k y : ℕ) (o : Option ℕ) (l : List Event)
    → Started y o
    → is_reported k (flush y o l) ≡ (pending k y o || is_reported k l)
flush_reported k y none l h = refl
flush_reported k y (some s) l h = ground arith

pub flush_updated :
    (k y : ℕ) (o : Option ℕ) (l : List Event) → is_updated k (flush y o l) ≡ is_updated k l
flush_updated k y none l = refl
flush_updated k y (some s) l = refl

advance_start : (f : Frame) (y : ℕ) (c : Cursor) → (advance f y c).y_start ≡ c.y_start
unfolding advance
advance_start f y c = ground arith

pending_next :
    (k y : ℕ) (o : Option ℕ)
    → Started y o
    → pending k (y + 1) (start_at y o) ≡ (pending k y o || y == k)
pending_next k y none h = ground arith
pending_next k y (some s) h = ground arith

start_at-Started : (y : ℕ) (o : Option ℕ) → Started y o → Started (y + 1) (start_at y o)
start_at-Started y none h = omega arith
start_at-Started y (some s) h = omega arith

-- One round of the loop, on either answer.
line_drawn :
    (m : Vram) (f : Frame) (n y : ℕ) (c : Cursor) (l : List Event)
    → line_update m f (line_addr f c) ≡ some true
    → draw_lines m f (suc n) y c ≡ some l
    → (l2 : List Event) × (draw_lines m f n
          (y + 1)
          (advance f y (record c { y_start = start_at y c.y_start }))
        ≡ some l2)
      × (l ≡ line y (line_addr f c) (not f.in_place) ∷ l2)
unfolding draw_lines
line_drawn m f n y c l u e =
    elim (Option-cases
      (draw_lines m f n (y + 1) (advance f y (record c { y_start = start_at y c.y_start })))) [
        | inl x ↦ absurd (ground arith)
        | inr (l2, x) ↦ (l2, x, ground arith)
      ]

line_skipped :
    (m : Vram) (f : Frame) (n y : ℕ) (c : Cursor) (l : List Event)
    → line_update m f (line_addr f c) ≡ some false
    → draw_lines m f (suc n) y c ≡ some l
    → (l2 : List Event) × (draw_lines m f n (y + 1) (advance f y (record c { y_start = none }))
        ≡ some l2)
      × (l ≡ flush y c.y_start l2)
unfolding draw_lines
line_skipped m f n y c l u e =
    elim (Option-cases (draw_lines m f n (y + 1) (advance f y (record c { y_start = none })))) [
      | inl x ↦ absurd (ground arith)
      | inr (l2, x) ↦ (l2, x, ground arith)
    ]

line_asserts :
    (m : Vram) (f : Frame) (n y : ℕ) (c : Cursor)
    → line_update m f (line_addr f c) ≡ none
    → draw_lines m f (suc n) y c ≡ none
unfolding draw_lines
line_asserts m f n y c u = ground arith

reported_end :
    (m : Vram) (f : Frame) (y k : ℕ) (c : Cursor) (l : List Event)
    → Started y c.y_start
    → draw_lines m f 0 y c ≡ some l
    → is_reported k l ≡ (pending k y c.y_start || is_updated k l)
unfolding draw_lines
reported_end m f y k c l h e =
    let same : l ≡ flush y c.y_start [] = ground arith in
    rw same (
      flush_reported k y c.y_start [] h
      ∙ ap (λ b. pending k y c.y_start || b) (sym (flush_updated k y c.y_start [])))

draw_lines-reported :
    (m : Vram) (f : Frame) (n y k : ℕ) (c : Cursor) (l : List Event)
    → Started y c.y_start
    → draw_lines m f n y c ≡ some l
    → is_reported k l ≡ (pending k y c.y_start || is_updated k l)
draw_lines-reported m f zero y k c l h e = reported_end m f y k c l h e
draw_lines-reported m f (suc n) y k c l h e =
    elim (Option-cases (line_update m f (line_addr f c))) [
      | inl u ↦ absurd (ground (arith, line_asserts m f n y c u))
      | inr (true, u) ↦
          let w = line_drawn m f n y c l u e in
          let c1 : Cursor = record c { y_start = start_at y c.y_start } in
          let at : (advance f y c1).y_start ≡ start_at y c.y_start = advance_start f y c1 in
          let ih =
            draw_lines-reported m f n (y + 1) k (advance f y c1) w.0
              (subst (Started (y + 1)) (sym at) (start_at-Started y c.y_start h)) w.1 in
          let all =
            ih
            ∙ ap (λ o. pending k (y + 1) o || is_updated k w.0) at
            ∙ ap (λ b. b || is_updated k w.0) (pending_next k y c.y_start h) in
          rw w.2 (ground (arith, all))
      | inr (false, u) ↦
          let w = line_skipped m f n y c l u e in
          let c1 : Cursor = record c { y_start = none } in
          let at : (advance f y c1).y_start ≡ none = advance_start f y c1 in
          let ih =
            draw_lines-reported m f n (y + 1) k (advance f y c1) w.0
              (subst (Started (y + 1)) (sym at) tt) w.1 in
          let all = ih ∙ ap (λ o. pending k (y + 1) o || is_updated k w.0) at in
          rw w.2 (
            flush_reported k y c.y_start w.0 h
            ∙ ap (λ b. pending k y c.y_start || b) (all ∙ sym (flush_updated k y c.y_start w.0)))
    ]

-- From the first line on, with nothing pending, the two agree.
pub draw_lines-whole :
    (m : Vram) (f : Frame) (n k : ℕ) (c : Cursor) (l : List Event)
    → c.y_start ≡ none
    → draw_lines m f n 0 c ≡ some l
    → is_reported k l ≡ is_updated k l
draw_lines-whole m f n k c l fresh e =
    draw_lines-reported m f n 0 k c l (subst (Started 0) (sym fresh) tt) e
    ∙ ap (λ o. pending k 0 o || is_updated k l) fresh

flush_drawn : (k y : ℕ) (o : Option ℕ) (l : List Event) → is_drawn k (flush y o l) ≡ is_drawn k l
flush_drawn k y none l = refl
flush_drawn k y (some s) l = refl

drawn_end :
    (m : Vram) (f : Frame) (y k : ℕ) (c : Cursor) (l : List Event)
    → draw_lines m f 0 y c ≡ some l
    → is_drawn k l ≡ (not f.in_place && is_updated k l)
unfolding draw_lines
drawn_end m f y k c l e =
    let same : l ≡ flush y c.y_start [] = ground arith in
    rw same (
      flush_drawn k y c.y_start []
      ∙ sym (ap (λ b. not f.in_place && b) (flush_updated k y c.y_start []) ∙ ground arith))

-- A line that is updated is drawn, unless the frame is shown in place.
pub draw_lines-drawn :
    (m : Vram) (f : Frame) (n y k : ℕ) (c : Cursor) (l : List Event)
    → draw_lines m f n y c ≡ some l
    → is_drawn k l ≡ (not f.in_place && is_updated k l)
draw_lines-drawn m f zero y k c l e = drawn_end m f y k c l e
draw_lines-drawn m f (suc n) y k c l e = elim (Option-cases (line_update m f (line_addr f c))) [
  | inl u ↦ absurd (ground (arith, line_asserts m f n y c u))
  | inr (true, u) ↦
      let w = line_drawn m f n y c l u e in
      let ih =
        draw_lines-drawn m f n (y + 1) k (advance f y (record c { y_start = start_at y c.y_start }))
          w.0 w.1 in
      rw w.2 (ground (arith, ih))
  | inr (false, u) ↦
      let w = line_skipped m f n y c l u e in
      let ih =
        draw_lines-drawn m f n (y + 1) k (advance f y (record c { y_start = none })) w.0 w.1 in
      rw w.2 (
        flush_drawn k y c.y_start w.0
        ∙ ih
        ∙ ap (λ b. not f.in_place && b) (sym (flush_updated k y c.y_start w.0)))
]
