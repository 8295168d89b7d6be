-- ===== src/Panic.antt =====
-- The panic screen: kernel/src/panic_screen.cpp. A text is the list of its bytes, the zero at its
-- end included.
use mathlib.Core.Option
use eta_os.Base.{
  ℕ, zero, suc, ◌+◌, ◌-◌, ◌*◌, ◌/◌, ◌^◌, Option, none, some, List, [], ◌∷◌, ◌==◌, if◌then◌else◌,
  u16, u32,
}
use eta_os.Screen.{BasicRenderer, print, clear}

-- `a - b` of an `unsigned int`.
abbrev pub minus_32 : ℕ → ℕ → ℕ
minus_32 a b = u32 (a + 2 ^ 32 - u32 b)

-- `while (msg[msg_size] != 0) { msg_size++; }` of a 16-bit `msg_size`, with the bytes from
-- `msg[msg_size]` on; `none` is a read past the end of the text.
unfoldable pub count_up : List ℕ → ℕ → Option ℕ
count_up [] msg_size = none
count_up (x ∷ rest) msg_size =
    let further = count_up rest (u16 (msg_size + 1)) in if x == 0 then some msg_size else further

-- The bytes from index `i` on.
unfoldable pub bytes_from : ℕ → List ℕ → List ℕ
bytes_from zero msg = msg
bytes_from (suc i) [] = []
bytes_from (suc i) (x ∷ rest) = bytes_from i rest

abbrev pub kernel_panic : List ℕ
kernel_panic =
    b'K' ∷ b'E' ∷ b'R' ∷ b'N' ∷ b'E' ∷ b'L' ∷ b' ' ∷ b'P' ∷ b'A' ∷ b'N' ∷ b'I' ∷ b'C' ∷ 0 ∷ []

-- What is drawn, with the size that was counted.
unfoldable pub draw_panic : BasicRenderer → List ℕ → ℕ → BasicRenderer
draw_panic r msg msg_size =
    let fb = r.target_framebuffer in
    let cleared = clear (record r { clear_color = 0x0000ff00 }) in
    let first =
      print
        (record cleared {
          cursor_x = minus_32 (fb.width / 2) 52;
          cursor_y = minus_32 (fb.height / 2) 16;
        })
        kernel_panic in
    print
      (record first {
        cursor_x = minus_32 (fb.width / 2) (msg_size * 8 / 2);
        cursor_y = first.cursor_y + 32;
      })
      msg

-- `panic(msg)`; `msg_size₀` is what the variable `msg_size` holds before, since it is not set.
unfoldable pub panic : BasicRenderer → List ℕ → ℕ → Option BasicRenderer
panic r msg msg_size₀ =
    Option.map (λ found. draw_panic r msg (u16 (found + 1)))
      (count_up (bytes_from msg_size₀ msg) msg_size₀)
