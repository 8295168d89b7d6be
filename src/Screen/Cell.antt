-- ===== src/Screen/Cell.antt =====
-- Where a character is drawn.
use eta_os.Base.{
  ℕ, zero, suc, ◌+◌, ◌≤◌, ◌<◌, bit_and, ◌≡◌, refl, ◌∙◌, inl, inr, arith, ltb, Bool-cases, u32,
  ◌>>>◌,
}
use eta_os.Memory.{Mem, store32}
use eta_os.Memory.Words.{Apart, store32_outside}
use eta_os.Screen.{BasicRenderer, pixel, glyph_at, rounds_to, draw_row, draw_rows, draw_char_at}

-- The byte at `a` is in none of the 8 by 16 pixels of the cell at `x`, `y`.
abbrev pub OffCell : BasicRenderer → ℕ → ℕ → ℕ → Type 0
OffCell r x y a =
    (k j : ℕ) → k < 8 → j < 16 → Apart (pixel r.target_framebuffer (x + k) (y + j)) 4 a 1

module _ (r : BasicRenderer) (x y a : ℕ) (off : OffCell r x y a) where
  draw_row_off :
      (left : ℕ) (m : Mem) (glyph k j : ℕ)
      → k + left ≤ 8
      → j < 16
      → draw_row left r m glyph k x (y + j) a ≡ m a
  unfolding draw_row
  draw_row_off zero m glyph k j h l = refl
  draw_row_off (suc left) m glyph k j h l =
      elim (Bool-cases (ltb 0 (bit_and glyph (0b10000000 >>> k)))) [
        | inl set ↦ rw set (
            draw_row_off left (store32 m (pixel r.target_framebuffer (x + k) (y + j)) r.color) glyph
              (k + 1) j (omega arith) l
            ∙ store32_outside m (pixel r.target_framebuffer (x + k) (y + j)) r.color a
                (off k j (omega arith) l))
        | inr clear' ↦ rw clear' (draw_row_off left m glyph (k + 1) j (omega arith) l)
      ]

  draw_rows_off :
      (left : ℕ) (m : Mem) (font_ptr j : ℕ)
      → j + left ≤ 16
      → draw_rows left r m font_ptr j x y a ≡ m a
  unfolding draw_rows
  draw_rows_off zero m font_ptr j h = refl
  draw_rows_off (suc left) m font_ptr j h =
      draw_rows_off left (draw_row (rounds_to x 8) r m (m (font_ptr + j)) 0 x (y + j)) font_ptr
        (j + 1) (omega arith)
      ∙ draw_row_off (rounds_to x 8) m (m (font_ptr + j)) 0 j (omega arith) (omega arith)

-- Drawing a character changes no byte outside the cell of its 8 by 16 pixels.
pub draw_char_at_off :
    (r : BasicRenderer) (chr x y a : ℕ)
    → OffCell r (u32 x) (u32 y) a
    → (draw_char_at r chr x y).mem a ≡ r.mem a
unfolding draw_char_at
draw_char_at_off r chr x y a off =
    draw_rows_off r (u32 x) (u32 y) a off (rounds_to (u32 y) 16) r.mem (glyph_at r.psf1_font chr) 0
      (omega arith)
