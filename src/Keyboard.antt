-- ===== src/Keyboard.antt =====
-- The keyboard: `handle_keyboard` of kernel/src/input/keyboard.cpp and QWERTZKeyboard of
-- kernel/src/input/kb_scancode_trans.h and kb_scancode_trans.cpp. The scancode is a byte.
pub mod Shift
use eta_os.Base.{
  ℕ, zero, suc, ◌+◌, ◌-◌, Bool, true, false, ◌||◌, Option, none, some, List, [], ◌∷◌, ltb, ◌==◌,
  if◌then◌else◌, u8,
}
use eta_os.Screen.{BasicRenderer, draw_char, clear_char, nextln}

-- The shift keys that are down, and the screen that is typed on.
pub record Keyboard : Type 0 where
  pub left_shift_pressed : Bool
  pub right_shift_pressed : Bool
  pub global_renderer : BasicRenderer

abbrev pub left_shift : ℕ
left_shift = 0x2a

abbrev pub right_shift : ℕ
right_shift = 0x36

abbrev pub enter : ℕ
enter = 0x1c

abbrev pub backspace : ℕ
backspace = 0x0e

abbrev pub space : ℕ
space = 0x39

abbrev pub ascii_table : List ℕ
ascii_table =
    0 ∷ 0 ∷ b'1' ∷ b'2' ∷ b'3' ∷ b'4' ∷ b'5' ∷ b'6' ∷ b'7' ∷ b'8' ∷ b'9' ∷ b'0' ∷ b'-' ∷ b'=' ∷ 0
    ∷ 0 ∷ b'q' ∷ b'w' ∷ b'e' ∷ b'r' ∷ b't' ∷ b'z' ∷ b'u' ∷ b'i' ∷ b'o' ∷ b'p' ∷ b'[' ∷ b']' ∷ 0 ∷ 0
    ∷ b'a' ∷ b's' ∷ b'd' ∷ b'f' ∷ b'g' ∷ b'h' ∷ b'j' ∷ b'k' ∷ b'l' ∷ b';' ∷ 39 ∷ 96 ∷ 0 ∷ 92 ∷ b'y'
    ∷ b'x' ∷ b'c' ∷ b'v' ∷ b'b' ∷ b'n' ∷ b'm' ∷ b',' ∷ b'.' ∷ b'/' ∷ 0 ∷ b'*' ∷ 0 ∷ b' ' ∷ []

-- `ascii_table[scancode]`; `none` is a read past the end.
abbrev pub entry_of : List ℕ → ℕ → Option ℕ
entry_of [] i = none
entry_of (x ∷ xs) zero = some x
entry_of (x ∷ xs) (suc i) = entry_of xs i

-- The character of a key as a byte; `- 32` wraps at its 8 bits.
unfoldable pub translate : ℕ → Bool → Option ℕ
translate scancode uppercase =
    if ltb 58 scancode then some 0 else elim (entry_of ascii_table scancode) [
      | none ↦ none
      | some c ↦ some (if uppercase then u8 (c + 256 - 32) else c)
    ]

-- What follows the `switch`: the key's character is drawn, if it has one.
unfoldable pub type_char : Keyboard → Option ℕ → Option Keyboard
type_char k none = none
type_char k (some ascii) =
    some
      (if ascii == 0 then k else record k { global_renderer = draw_char k.global_renderer ascii })

unfoldable pub type_key : Keyboard → ℕ → Option Keyboard
unfolding translate type_char
type_key k scancode =
    type_char k (translate scancode (k.left_shift_pressed || k.right_shift_pressed))

-- `none` stands for the read past the end of the table.
unfoldable pub handle_keyboard : Keyboard → ℕ → Option Keyboard
unfolding type_key
handle_keyboard k scancode =
    if scancode == left_shift
    then some (record k { left_shift_pressed = true })
    else if scancode == left_shift + 0x80
    then some (record k { left_shift_pressed = false })
    else if scancode == right_shift
    then some (record k { right_shift_pressed = true })
    else if scancode == right_shift + 0x80
    then some (record k { right_shift_pressed = false })
    else if scancode == enter
    then some (record k { global_renderer = nextln k.global_renderer })
    else if scancode == space
    then some (record k { global_renderer = draw_char k.global_renderer b' ' })
    else if scancode == backspace
    then some (record k { global_renderer = clear_char k.global_renderer })
    else type_key k scancode
