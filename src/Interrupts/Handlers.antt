-- ===== src/Interrupts/Handlers.antt =====
-- The handlers of kernel/src/interrupts/interrupts.cpp. After a fault the machine stays in a loop
-- with the screen that is given; `none` is a read past the end of a text or of the keyboard's table.
use mathlib.Core.Option
use eta_os.Base.{ℕ, Option, List, [], ◌∷◌}
use eta_os.Keyboard.{Keyboard, handle_keyboard}
use eta_os.Panic.{panic}
use eta_os.Screen.{BasicRenderer}
use eta_os.Interrupts.Pic.{pic_end_master}
use eta_os.Timer.{PortWrite}

abbrev page_fault : List ℕ
page_fault =
    b'P' ∷ b'A' ∷ b'G' ∷ b'E' ∷ b' ' ∷ b'F' ∷ b'A' ∷ b'U' ∷ b'L' ∷ b'T' ∷ b' ' ∷ b'D' ∷ b'E' ∷ b'T'
    ∷ b'E' ∷ b'C' ∷ b'T' ∷ b'E' ∷ b'D' ∷ 0 ∷ []

abbrev double_fault : List ℕ
double_fault =
    b'D' ∷ b'O' ∷ b'U' ∷ b'B' ∷ b'L' ∷ b'E' ∷ b' ' ∷ b'F' ∷ b'A' ∷ b'U' ∷ b'L' ∷ b'T' ∷ b' ' ∷ b'D'
    ∷ b'E' ∷ b'T' ∷ b'E' ∷ b'C' ∷ b'T' ∷ b'E' ∷ b'D' ∷ 0 ∷ []

abbrev gp_fault : List ℕ
gp_fault =
    b'G' ∷ b'E' ∷ b'N' ∷ b'E' ∷ b'R' ∷ b'A' ∷ b'L' ∷ b' ' ∷ b'P' ∷ b'R' ∷ b'O' ∷ b'T' ∷ b'E' ∷ b'C'
    ∷ b'T' ∷ b'I' ∷ b'O' ∷ b'N' ∷ b' ' ∷ b'F' ∷ b'A' ∷ b'U' ∷ b'L' ∷ b'T' ∷ b' ' ∷ b'D' ∷ b'E'
    ∷ b'T' ∷ b'E' ∷ b'C' ∷ b'T' ∷ b'E' ∷ b'D' ∷ 0 ∷ []

-- `msg_size₀` is what the variable of `panic` holds before.
unfoldable pub page_fault_handler : BasicRenderer → ℕ → Option BasicRenderer
page_fault_handler r msg_size₀ = panic r page_fault msg_size₀

unfoldable pub double_fault_handler : BasicRenderer → ℕ → Option BasicRenderer
double_fault_handler r msg_size₀ = panic r double_fault msg_size₀

unfoldable pub gp_fault_handler : BasicRenderer → ℕ → Option BasicRenderer
gp_fault_handler r msg_size₀ = panic r gp_fault msg_size₀

-- With the byte read from port 0x60, the new state and the port writes.
unfoldable pub keyboard_int_handler : Keyboard → ℕ → Option (Keyboard × List PortWrite)
keyboard_int_handler k scancode =
    Option.map (λ typed. (typed, pic_end_master)) (handle_keyboard k scancode)
