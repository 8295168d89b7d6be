-- ===== src/Screen.antt =====
-- The text screen: class BasicRenderer of kernel/src/basic_renderer.h and basic_renderer.cpp, with
-- Framebuffer of framebuffer.h and the font of simple_font.h. Pixels and glyphs lie in memory.
-- A cursor is never negative after a call, so its two coordinates are natural numbers; where the
-- source subtracts and then tests for a negative value, the test comes first here.
pub mod Cursor
pub mod Cell
use eta_os.Base.{
  ℕ, zero, suc, ◌+◌, ◌-◌, ◌*◌, bit_and, List, [], ◌∷◌, ltb, ◌==◌, if◌then◌else◌, u32, ◌>>>◌,
}
use eta_os.Memory.{Mem, store32}

pub record Framebuffer : Type 0 where
  pub base_adress : ℕ
  pub buffer_size : ℕ
  pub width : ℕ
  pub height : ℕ
  pub pixels_per_scanline : ℕ

pub record Psf1Font : Type 0 where
  pub charsize : ℕ
  pub glyph_buffer : ℕ

-- The renderer, and the memory that it draws to.
pub record BasicRenderer : Type 0 where
  pub cursor_x : ℕ
  pub cursor_y : ℕ
  pub target_framebuffer : Framebuffer
  pub psf1_font : Psf1Font
  pub color : ℕ
  pub clear_color : ℕ
  pub mem : Mem

-- `pixel_ptr + x + (y * pixels_per_scanline)`, with four bytes to a pixel.
abbrev pub pixel : Framebuffer → ℕ → ℕ → ℕ
pixel fb x y = fb.base_adress + 4 * (x + y * fb.pixels_per_scanline)

-- The start of a character's glyph; `char` is signed.
abbrev pub glyph_at : Psf1Font → ℕ → ℕ
glyph_at font chr =
    if ltb chr 128
    then font.glyph_buffer + chr * font.charsize
    else font.glyph_buffer - (256 - chr) * font.charsize

-- The rounds of `for (i = off; i < off + n; i++)`, whose bound wraps at 32 bits.
abbrev pub rounds_to : ℕ → ℕ → ℕ
rounds_to off n = u32 (off + n) - off

-- The inner loop: the pixels of a row whose bits are set in the glyph's byte, from bit `k` on.
unfoldable pub draw_row : ℕ → BasicRenderer → Mem → ℕ → ℕ → ℕ → ℕ → Mem
draw_row zero r m glyph k x_off y = m
draw_row (suc left) r m glyph k x_off y =
    draw_row left r
      (if ltb 0 (bit_and glyph (0b10000000 >>> k))
        then store32 m (pixel r.target_framebuffer (x_off + k) y) r.color
        else m)
      glyph (k + 1) x_off y

-- The outer loop: rows `j` on, each from its own byte of the glyph.
unfoldable pub draw_rows : ℕ → BasicRenderer → Mem → ℕ → ℕ → ℕ → ℕ → Mem
unfolding draw_row
draw_rows zero r m font_ptr j x_off y_off = m
draw_rows (suc left) r m font_ptr j x_off y_off =
    draw_rows left r (draw_row (rounds_to x_off 8) r m (m (font_ptr + j)) 0 x_off (y_off + j))
      font_ptr (j + 1) x_off y_off

-- `draw_char(chr, xOff, yOff)`: the offsets are 32 bits wide.
unfoldable pub draw_char_at : BasicRenderer → ℕ → ℕ → ℕ → BasicRenderer
unfolding draw_rows
draw_char_at r chr x_off y_off = record r {
  mem =
      draw_rows (rounds_to (u32 y_off) 16) r r.mem (glyph_at r.psf1_font chr) 0 (u32 x_off)
        (u32 y_off);
}

-- The cursor goes to the next cell, or to the next line where no cell is left.
abbrev pub advance : BasicRenderer → BasicRenderer
advance r =
    let x = r.cursor_x + 8 in
    if ltb r.target_framebuffer.width (x + 8)
    then record r { cursor_x = 0; cursor_y = r.cursor_y + 16 }
    else record r { cursor_x = x }

unfoldable pub draw_char : BasicRenderer → ℕ → BasicRenderer
draw_char r chr = advance (draw_char_at r chr r.cursor_x r.cursor_y)

-- `print` of the characters from `str` on, to the first zero.
unfoldable pub print : BasicRenderer → List ℕ → BasicRenderer
print r [] = r
print r (chr ∷ rest) =
    let next = print (advance (draw_char_at r chr r.cursor_x r.cursor_y)) rest in
    if chr == 0 then r else next

-- A run of pixels set to the clear colour, and a block of such runs.
unfoldable pub clear_row : ℕ → BasicRenderer → Mem → ℕ → ℕ → Mem
clear_row zero r m x y = m
clear_row (suc left) r m x y =
    clear_row left r (store32 m (pixel r.target_framebuffer x y) r.clear_color) (x + 1) y

unfoldable pub clear_rows : ℕ → ℕ → BasicRenderer → Mem → ℕ → ℕ → Mem
unfolding clear_row
clear_rows zero columns r m x y = m
clear_rows (suc left) columns r m x y =
    clear_rows left columns r (clear_row columns r m x y) x (y + 1)

-- Every scan line of the screen, with the pixels behind its right edge.
unfoldable pub clear : BasicRenderer → BasicRenderer
unfolding clear_rows
clear r =
    let fb = r.target_framebuffer in
    record r { mem = clear_rows fb.height fb.pixels_per_scanline r r.mem 0 0 }

-- `y -= 16; if (y < 0) y = 0`
abbrev pub line_above : ℕ → ℕ
line_above y = if ltb y 16 then 0 else y - 16

-- The cursor's column 0 becomes the end of the line above.
abbrev pub wrap_back : BasicRenderer → BasicRenderer
wrap_back r =
    if r.cursor_x == 0
    then record r { cursor_x = r.target_framebuffer.width; cursor_y = line_above r.cursor_y }
    else r

-- `x -= 8`, and the same wrap where that is negative.
abbrev pub step_back : BasicRenderer → BasicRenderer
step_back r =
    if ltb r.cursor_x 8
    then record r { cursor_x = r.target_framebuffer.width; cursor_y = line_above r.cursor_y }
    else record r { cursor_x = r.cursor_x - 8 }

-- The 8 columns left of the cursor are cleared; `x_off - 8` wraps at 32 bits where it is negative,
-- and the loop then has no round.
unfoldable pub clear_char : BasicRenderer → BasicRenderer
unfolding clear_rows
clear_char r =
    let back = wrap_back r in
    let x_off = u32 back.cursor_x in
    let columns = if ltb x_off 8 then 0 else 8 in
    step_back (record back {
      mem =
          clear_rows (rounds_to (u32 back.cursor_y) 16) columns back back.mem (x_off - 8)
            (u32 back.cursor_y);
    })

unfoldable pub nextln : BasicRenderer → BasicRenderer
nextln r = record r { cursor_x = 0; cursor_y = r.cursor_y + 16 }
