-- ===== src/Tests/DevicesTest.antt =====
-- The interrupt table, the keyboard and the names of PCI devices.
use eta_os.Base.{
  ℕ, ◌+◌, ◌*◌, ◌/◌, ◌%◌, ◌^◌, ◌≡◌, refl, true, false, none, some, [], ◌∷◌, arith, ◌==◌,
  if◌then◌else◌,
}
use eta_os.Interrupts.{set_idt_gate}
use eta_os.Interrupts.Gate.{set_idt_gate_outside}
use eta_os.Screen.{BasicRenderer, draw_char, print, clear_char}
use eta_os.Screen.Cursor.{HasCell, print-HasCell, clear_char-draw_char}
use eta_os.Keyboard.{Keyboard, translate, handle_keyboard}
use eta_os.Keyboard.Shift.{handle_keyboard-some}
use eta_os.Pci.{get_prog_if_name}
use eta_os.Panic.{count_up, bytes_from, panic}
use eta_os.Gdt.{GdtEntry, default_gdt}

set_idt_gate_outside_example :
    set_idt_gate (λ x. x % 256) 8192 0xffff_8000_1234_5678 0x21 0x8e 0x08 (8192 + 0x22 * 16 + 3)
    ≡ (8192 + 0x22 * 16 + 3) % 256
set_idt_gate_outside_example =
    set_idt_gate_outside (λ x. x % 256) 8192 0xffff_8000_1234_5678 0x21 0x8e 0x08 0x22 3
      (omega arith) (omega arith) (omega arith) (omega arith) (omega arith)

-- A screen of one cell at 65536, with a font at 4096 whose glyphs are all set.
abbrev screen : BasicRenderer
screen = record {
  cursor_x = 8;
  cursor_y = 16;
  target_framebuffer = record {
    base_adress = 65536;
    buffer_size = 2048;
    width = 16;
    height = 32;
    pixels_per_scanline = 16;
  };
  psf1_font = record { charsize = 16; glyph_buffer = 4096 };
  color = 0xffffffff;
  clear_color = 0;
  mem = λ x. 255;
}

abbrev keyboard : Keyboard
keyboard = record {
  left_shift_pressed = false;
  right_shift_pressed = false;
  global_renderer = screen;
}

-- The key of scancode 0x1e is the letter a; with shift it is the letter A.
letter : translate 0x1e false ≡ some b'a'
unfolding translate
letter = refl

capital : translate 0x1e true ≡ some b'A'
unfolding translate
capital = refl

-- With shift, a key without a character has one: 0 - 32 wraps to 224.
shifted_nothing : translate 0x1d true ≡ some 224
unfolding translate
shifted_nothing = refl

handle_keyboard-some_example :
    (k' : Keyboard) × (handle_keyboard keyboard 0x36 ≡ some k')
    × (k'.left_shift_pressed ≡ (
        if 0x36 == 0x2a then true else if 0x36 == 0xaa then false else keyboard.left_shift_pressed))
    × (k'.right_shift_pressed ≡ (
        if 0x36 == 0x36
        then true
        else if 0x36 == 0xb6
        then false
        else keyboard.right_shift_pressed))
handle_keyboard-some_example = handle_keyboard-some keyboard 0x36 (omega arith)

print-HasCell_example : HasCell (print screen (b'o' ∷ b'k' ∷ 0 ∷ b'!' ∷ []))
print-HasCell_example = print-HasCell screen (b'o' ∷ b'k' ∷ 0 ∷ b'!' ∷ []) (omega arith)

-- At the end of a line, so that the cursor goes to the next and comes back.
clear_char-draw_char_example :
    ((clear_char (draw_char screen b'a')).cursor_x ≡ 8)
    × ((clear_char (draw_char screen b'a')).cursor_y ≡ 16)
clear_char-draw_char_example = clear_char-draw_char screen b'a' (omega arith) refl refl

-- An IPI controller is shown as a USB3 one.
usb_name : get_prog_if_name (λ x. "16") (λ x. "8") 0x01 0x03 0x30 ≡ "XHCI (USB3) Controller"
unfolding get_prog_if_name
usb_name = refl

-- The privilege level in a segment's access byte.
abbrev privilege_level : GdtEntry → ℕ
privilege_level e = e.access_byte / 2 ^ 5 % 4

-- The user's code runs at the kernel's privilege level.
user_code_privileged :
    privilege_level default_gdt.user_code ≡ privilege_level default_gdt.kernel_code
user_code_privileged = refl

-- The count of the message's size starts behind the end of the message.
panic_wild : panic screen (b'x' ∷ 0 ∷ []) 5 ≡ none
unfolding panic count_up bytes_from
panic_wild = refl

-- It starts at the message: its size has the zero.
count_up_all : count_up (b'n' ∷ b'o' ∷ 0 ∷ []) 0 ≡ some 2
unfolding count_up
count_up_all = refl
