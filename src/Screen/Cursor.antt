-- ===== src/Screen/Cursor.antt =====
-- Where the cursor goes.
use eta_os.Base.{
  ℕ, ◌+◌, ◌-◌, ◌%◌, ◌≤◌, ◌≡◌, refl, ap, ◌∙◌, inl, inr, List, [], ◌∷◌, arith, ltb, ◌==◌,
  if◌then◌else◌, Bool-cases,
}
use eta_os.Screen.{
  Framebuffer, BasicRenderer, draw_char_at, advance, draw_char, print, line_above, clear_char,
}

-- A whole cell fits between the cursor and the right edge.
abbrev pub HasCell : BasicRenderer → Type 0
HasCell r = r.cursor_x + 8 ≤ r.target_framebuffer.width

advance-HasCell : (r : BasicRenderer) → HasCell r → HasCell (advance r)
advance-HasCell r h = elim (Bool-cases (ltb r.target_framebuffer.width (r.cursor_x + 8 + 8))) [
  | inl over ↦ rw over (omega arith)
  | inr within ↦ rw within (ground arith)
]

-- Printing any text leaves the cursor where a whole cell fits, if one fits before.
pub print-HasCell : (r : BasicRenderer) (text : List ℕ) → HasCell r → HasCell (print r text)
unfolding print
print-HasCell r [] h = h
print-HasCell r (chr ∷ text) h = elim (Bool-cases (chr == 0)) [
  | inl stop ↦ rw stop h
  | inr more ↦
      let drawn = draw_char_at r chr r.cursor_x r.cursor_y in
      rw more
        (print-HasCell (advance drawn) text (advance-HasCell drawn (unfold draw_char_at in h)))
]

-- The cursor after a backspace, from the width of the screen and the cursor before it.
back_x : ℕ → ℕ → ℕ
back_x width x = let start = if x == 0 then width else x in if ltb start 8 then width else start - 8

back_y : ℕ → ℕ → ℕ → ℕ
back_y width x y =
    let start = if x == 0 then width else x in
    let above = if x == 0 then line_above y else y in
    if ltb start 8 then line_above above else above

clear_char_cursor :
    (r : BasicRenderer)
    → ((clear_char r).cursor_x ≡ back_x r.target_framebuffer.width r.cursor_x)
      × ((clear_char r).cursor_y ≡ back_y r.target_framebuffer.width r.cursor_x r.cursor_y)
unfolding clear_char back_x back_y
clear_char_cursor r = elim (Bool-cases (r.cursor_x == 0)) [
  | inl start ↦ rw start (ground arith, ground arith)
  | inr inside ↦ rw inside (ground arith, ground arith)
]

-- The cursor after a character.
next_x : ℕ → ℕ → ℕ
next_x width x = if ltb width (x + 8 + 8) then 0 else x + 8

next_y : ℕ → ℕ → ℕ → ℕ
next_y width x y = if ltb width (x + 8 + 8) then y + 16 else y

draw_char_cursor :
    (r : BasicRenderer) (chr : ℕ)
    → ((draw_char r chr).cursor_x ≡ next_x r.target_framebuffer.width r.cursor_x)
      × ((draw_char r chr).cursor_y ≡ next_y r.target_framebuffer.width r.cursor_x r.cursor_y)
      × ((draw_char r chr).target_framebuffer ≡ r.target_framebuffer)
unfolding draw_char draw_char_at next_x next_y
draw_char_cursor r chr = elim (Bool-cases (ltb r.target_framebuffer.width (r.cursor_x + 8 + 8))) [
  | inl over ↦ rw over (refl, refl, refl)
  | inr within ↦ rw within (refl, refl, refl)
]

back-next :
    (width x y : ℕ)
    → x + 8 ≤ width
    → x % 8 ≡ 0
    → width % 8 ≡ 0
    → (back_x width (next_x width x) ≡ x) × (back_y width (next_x width x) (next_y width x y) ≡ y)
unfolding back_x back_y next_x next_y
back-next width x y fits grid wide = elim (Bool-cases (ltb width (x + 8 + 8))) [
  | inl over ↦ rw over (ground arith, ground arith)
  | inr within ↦ rw within (ground arith, ground arith)
]

-- Where a whole cell fits at the cursor, and its column and the width of the screen are
-- multiples of 8, the backspace brings the cursor back to the character that was drawn last,
-- across the end of a line too.
pub clear_char-draw_char :
    (r : BasicRenderer) (chr : ℕ)
    → HasCell r
    → r.cursor_x % 8 ≡ 0
    → r.target_framebuffer.width % 8 ≡ 0
    → ((clear_char (draw_char r chr)).cursor_x ≡ r.cursor_x)
      × ((clear_char (draw_char r chr)).cursor_y ≡ r.cursor_y)
clear_char-draw_char r chr fits grid wide =
    let (xs, ys) = clear_char_cursor (draw_char r chr) in
    let (to_x, to_y, same) = draw_char_cursor r chr in
    let (x_back, y_back) =
      back-next r.target_framebuffer.width r.cursor_x r.cursor_y fits grid wide in
    let width : (draw_char r chr).target_framebuffer.width ≡ r.target_framebuffer.width =
      ap (λ (fb : Framebuffer). fb.width) same in
    (xs ∙ rw (width, to_x) x_back, ys ∙ rw (width, to_x, to_y) y_back)
