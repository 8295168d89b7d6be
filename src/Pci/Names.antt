-- ===== src/Pci/Names.antt =====
-- Which codes have a name of their own.
use Prim.Native.String.{String}
use eta_os.Base.{
  ℕ, zero, suc, ◌≤◌, ◌<◌, ◌≡◌, refl, ◌⊎◌, inl, inr, none, some, List, [], ◌∷◌, arith, ltb, ltb→lt,
  Bool-cases, length,
}
use eta_os.Pci.{device_classes, element, get_prog_if_name}

module _ (to_hstring_16 to_hstring_8 : ℕ → String) where
  -- Falling through, storage and display controllers of subclass 3 get the names of USB
  -- controllers, at every programming interface.
  pub get_prog_if_name_falls_through :
      (class_code prog_if : ℕ)
      → (class_code ≡ 0x01) ⊎ (class_code ≡ 0x03)
      → get_prog_if_name to_hstring_16 to_hstring_8 class_code 0x03 prog_if
        ≡ get_prog_if_name to_hstring_16 to_hstring_8 0x0C 0x03 prog_if
  unfolding get_prog_if_name
  get_prog_if_name_falls_through class_code prog_if (inl e) = rw e
  get_prog_if_name_falls_through class_code prog_if (inr e) = rw e

element_high : (names : List String) (i : ℕ) → length names ≤ i → element names i ≡ none
element_high [] i h = refl
element_high (x ∷ xs) zero h = absurd (omega arith)
element_high (x ∷ xs) (suc i) h = element_high xs i (omega arith)

element_low :
    (names : List String) (i : ℕ)
    → i < length names
    → (name : String) × (element names i ≡ some name)
element_low [] i h = absurd (omega arith)
element_low (x ∷ xs) zero h = (x, refl)
element_low (x ∷ xs) (suc i) h = element_low xs i (omega arith)

-- The lookup that enumerate_function makes is in the array exactly for the classes below 20.
pub device_classes-element :
    (class_code : ℕ)
    → ((class_code < 20) × ((name : String) × (element device_classes class_code ≡ some name)))
      ⊎ ((20 ≤ class_code) × (element device_classes class_code ≡ none))
device_classes-element c = elim (Bool-cases (ltb c 20)) [
  | inl low ↦ inl (ltb→lt c 20 low, element_low device_classes c (ltb→lt c 20 low))
  | inr high ↦ inr (ground arith, element_high device_classes c (ground arith))
]
