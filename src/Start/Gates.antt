-- ===== src/Start/Gates.antt =====
-- The gates after `prepare_interrupts`.
use eta_os.Base.{ℕ, ◌+◌, ◌^◌, ◌≤◌, ◌<◌, ◌≡◌, refl, ◌∙◌, ◌≢◌, true, not, ◌&&◌, arith, ltb, ◌==◌}
use eta_os.Memory.{Mem, load16}
use eta_os.Interrupts.{get_offset, gate_at, set_idt_gate}
use eta_os.Interrupts.Gate.{get_offset_same, set_idt_gate-get_offset, set_idt_gate_elsewhere}
use eta_os.Start.{Handlers, interrupt_gate, set_gates, prepare_interrupts}
use eta_os.Frames.{Kernel, request_page}
use eta_os.Memory.Words.{load16_same}

-- Gate `n` of the table at `idt` leads to the handler, as an interrupt gate of the kernel's code.
abbrev pub IsGate : Mem → ℕ → ℕ → ℕ → Type 0
IsGate m idt handler n =
    (get_offset m (gate_at idt n) ≡ handler)
    × (m (gate_at idt n + 5) ≡ interrupt_gate)
    × (load16 m (gate_at idt n + 2) ≡ 0x08)

module _ (m : Mem) (idt : ℕ) (in_space : idt + 4096 ≤ 2 ^ 64) where
  set_idt_gate-IsGate :
      (handler n : ℕ)
      → handler < 2 ^ 64
      → IsGate (set_idt_gate m idt handler n interrupt_gate 0x08) idt handler n
  set_idt_gate-IsGate handler n fits =
      set_idt_gate-get_offset m idt handler n interrupt_gate 0x08 fits (omega arith) (omega arith)

  -- Setting another gate keeps it.
  IsGate-set_idt_gate :
      (handler n other k : ℕ)
      → n < 256
      → k < 256
      → n ≢ k
      → IsGate m idt handler n
      → IsGate (set_idt_gate m idt other k interrupt_gate 0x08) idt handler n
  IsGate-set_idt_gate handler n other k n_fits k_fits ne (offset, type, selector) =
      let m' = set_idt_gate m idt other k interrupt_gate 0x08 in
      let keep : (x : ℕ) → gate_at idt n ≤ x → x < gate_at idt n + 16 → m' x ≡ m x =
        λ x l u. set_idt_gate_elsewhere m idt other k interrupt_gate 0x08 x (omega arith) in
      (
        get_offset_same m m' (gate_at idt n) (λ x l u. keep x l (omega arith))
              (λ x l u. keep x (omega arith) (omega arith))
            ∙ offset,
        keep (gate_at idt n + 5) (omega arith) (omega arith) ∙ type,
        load16_same {m = m} {m' = m'} (gate_at idt n + 2)
              (λ x l u. keep x (omega arith) (omega arith))
            ∙ selector,
      )

-- The addresses of the handlers are addresses.
pub record AreAddresses (h : Handlers) : Type 0 where
  pub page_fault_fits : h.page_fault_handler < 2 ^ 64
  pub double_fault_fits : h.double_fault_handler < 2 ^ 64
  pub gp_fault_fits : h.gp_fault_handler < 2 ^ 64
  pub keyboard_int_fits : h.keyboard_int_handler < 2 ^ 64
  pub pit_int_fits : h.pit_int_handler < 2 ^ 64

-- The five gates.
abbrev pub HasGates : Mem → ℕ → Handlers → Type 0
HasGates m idt h =
    IsGate m idt h.page_fault_handler 0xe
    × IsGate m idt h.double_fault_handler 0x8
    × IsGate m idt h.gp_fault_handler 0xd
    × IsGate m idt h.keyboard_int_handler 0x21
    × IsGate m idt h.pit_int_handler 0x20

-- Setting another gate keeps it, with one test on the numbers of the gates.
IsGate-kept :
    (idt : ℕ)
    → idt + 4096 ≤ 2 ^ 64
    → (m : Mem) (handler n other k : ℕ) → (ltb n 256 && ltb k 256 && not (n == k)) ≡ true
    → IsGate m idt handler n
    → IsGate (set_idt_gate m idt other k interrupt_gate 0x08) idt handler n
IsGate-kept idt space m handler n other k apart gate =
    IsGate-set_idt_gate m idt space handler n other k (ground arith) (ground arith) (ground arith)
      gate

set_gates-HasGates :
    (m : Mem) (idt : ℕ) (h : Handlers)
    → idt + 4096 ≤ 2 ^ 64
    → AreAddresses h
    → HasGates (set_gates m idt h) idt h
unfolding set_gates
set_gates-HasGates m idt h space fits =
    let m₁ = set_idt_gate m idt h.page_fault_handler 0xe interrupt_gate 0x08 in
    let m₂ = set_idt_gate m₁ idt h.double_fault_handler 0x8 interrupt_gate 0x08 in
    let m₃ = set_idt_gate m₂ idt h.gp_fault_handler 0xd interrupt_gate 0x08 in
    let m₄ = set_idt_gate m₃ idt h.keyboard_int_handler 0x21 interrupt_gate 0x08 in
    let keep = IsGate-kept idt space in
    let g₁ = set_idt_gate-IsGate m idt space h.page_fault_handler 0xe fits.page_fault_fits in
    let g₂ = set_idt_gate-IsGate m₁ idt space h.double_fault_handler 0x8 fits.double_fault_fits in
    let g₃ = set_idt_gate-IsGate m₂ idt space h.gp_fault_handler 0xd fits.gp_fault_fits in
    let g₄ = set_idt_gate-IsGate m₃ idt space h.keyboard_int_handler 0x21 fits.keyboard_int_fits in
    (
      keep m₄ h.page_fault_handler 0xe h.pit_int_handler 0x20 refl (
          keep m₃ h.page_fault_handler 0xe h.keyboard_int_handler 0x21 refl (
            keep m₂ h.page_fault_handler 0xe h.gp_fault_handler 0xd refl
              (keep m₁ h.page_fault_handler 0xe h.double_fault_handler 0x8 refl g₁))),
      keep m₄ h.double_fault_handler 0x8 h.pit_int_handler 0x20 refl (
          keep m₃ h.double_fault_handler 0x8 h.keyboard_int_handler 0x21 refl
            (keep m₂ h.double_fault_handler 0x8 h.gp_fault_handler 0xd refl g₂)),
      keep m₄ h.gp_fault_handler 0xd h.pit_int_handler 0x20 refl
          (keep m₃ h.gp_fault_handler 0xd h.keyboard_int_handler 0x21 refl g₃),
      keep m₄ h.keyboard_int_handler 0x21 h.pit_int_handler 0x20 refl g₄,
      set_idt_gate-IsGate m₄ idt space h.pit_int_handler 0x20 fits.pit_int_fits,
    )

-- When the page that the allocator hands out for the table ends within the address space and
-- the handlers are addresses, then after prepare_interrupts each of the five gates leads to its
-- handler, as an interrupt gate of the kernel's code segment.
pub prepare_interrupts-HasGates :
    (k : Kernel) (h : Handlers) (a1 a2 : ℕ)
    → (request_page k).1 + 4096 ≤ 2 ^ 64
    → AreAddresses h
    → HasGates (prepare_interrupts k h a1 a2).0.mem (prepare_interrupts k h a1 a2).1 h
unfolding prepare_interrupts
prepare_interrupts-HasGates k h a1 a2 space fits =
    set_gates-HasGates (request_page k).0.mem (request_page k).1 h space fits
