-- ===== src/Keyboard/Shift.antt =====
-- Which scancodes are handled, and what the shift keys do.
use eta_os.Base.{
  ℕ, zero, suc, ◌+◌, ◌-◌, ◌<◌, ◌≡◌, refl, ◌≢◌, inl, inr, Bool, true, false, ◌||◌, none, some, List,
  [], ◌∷◌, arith, ltb, ◌==◌, if◌then◌else◌, Bool-cases, u8, length,
}
use eta_os.Keyboard.{
  Keyboard, ascii_table, entry_of, translate, type_char, type_key, handle_keyboard,
}
use eta_os.Screen.{draw_char, clear_char, nextln}

entry_of_low : (table : List ℕ) (i : ℕ) → i < length table → (c : ℕ) × (entry_of table i ≡ some c)
entry_of_low [] i h = absurd (omega arith)
entry_of_low (x ∷ xs) zero h = (x, refl)
entry_of_low (x ∷ xs) (suc i) h = entry_of_low xs i (omega arith)

translate-some :
    (scancode : ℕ) (uppercase : Bool)
    → scancode ≢ 58
    → (c : ℕ) × (translate scancode uppercase ≡ some c)
unfolding translate
translate-some scancode uppercase ne = elim (Bool-cases (ltb 58 scancode)) [
  | inl high ↦ (0, rw high)
  | inr low ↦
      let (c, e) = entry_of_low ascii_table scancode (ground arith) in
      (if uppercase then u8 (c + 256 - 32) else c, rw (low, e))
]

type_key-some :
    (k : Keyboard) (scancode : ℕ)
    → scancode ≢ 58
    → (k' : Keyboard) × (type_key k scancode ≡ some k')
      × (k'.left_shift_pressed ≡ k.left_shift_pressed)
      × (k'.right_shift_pressed ≡ k.right_shift_pressed)
unfolding type_key
type_key-some k scancode ne =
    let (c, e) = translate-some scancode (k.left_shift_pressed || k.right_shift_pressed) ne in
    elim (Bool-cases (c == 0)) [
      | inl silent ↦ (k, rw (e, type_char, silent), refl, refl)
      | inr drawn ↦ (
        record k { global_renderer = draw_char k.global_renderer c },
        rw (e, type_char, drawn),
        refl,
        refl,
      )
    ]

-- Every scancode but 58 is handled, and the two shift flags follow their own keys alone.
pub handle_keyboard-some :
    (k : Keyboard) (scancode : ℕ)
    → scancode ≢ 58
    → (k' : Keyboard) × (handle_keyboard k scancode ≡ some k')
      × (k'.left_shift_pressed ≡ (
          if scancode == 0x2a
          then true
          else if scancode == 0xaa
          then false
          else k.left_shift_pressed))
      × (k'.right_shift_pressed ≡ (
          if scancode == 0x36
          then true
          else if scancode == 0xb6
          then false
          else k.right_shift_pressed))
unfolding handle_keyboard
handle_keyboard-some k scancode ne = elim (Bool-cases (scancode == 0x2a)) [
  | inl left ↦ (record k { left_shift_pressed = true }, ground arith, ground arith, ground arith)
  | inr not_left ↦ (elim (Bool-cases (scancode == 0xaa)) [
    | inl left_up ↦
        (record k { left_shift_pressed = false }, ground arith, ground arith, ground arith)
    | inr not_left_up ↦ (elim (Bool-cases (scancode == 0x36)) [
      | inl right ↦
          (record k { right_shift_pressed = true }, ground arith, ground arith, ground arith)
      | inr not_right ↦ (elim (Bool-cases (scancode == 0xb6)) [
        | inl right_up ↦
            (record k { right_shift_pressed = false }, ground arith, ground arith, ground arith)
        | inr not_right_up ↦ (elim (Bool-cases (scancode == 0x1c)) [
          | inl entered ↦ (
            record k { global_renderer = nextln k.global_renderer },
            ground arith,
            ground arith,
            ground arith,
          )
          | inr not_entered ↦ (elim (Bool-cases (scancode == 0x39)) [
            | inl spaced ↦ (
              record k { global_renderer = draw_char k.global_renderer b' ' },
              ground arith,
              ground arith,
              ground arith,
            )
            | inr not_spaced ↦ (elim (Bool-cases (scancode == 0x0e)) [
              | inl erased ↦ (
                record k { global_renderer = clear_char k.global_renderer },
                ground arith,
                ground arith,
                ground arith,
              )
              | inr not_erased ↦
                  (let (k', e, l, r) = type_key-some k scancode ne in
                    (k', ground (arith, e), ground (arith, l), ground (arith, r)))
            ])
          ])
        ])
      ])
    ])
  ])
]

-- Scancode 58, the caps lock key, reads past the end of the table, whatever the state.
pub handle_keyboard-none : (k : Keyboard) → handle_keyboard k 58 ≡ none
unfolding handle_keyboard type_key translate
handle_keyboard-none k = refl
