-- ===== src/Heap/Combine.antt =====
-- What `combine_forward` leaves behind.
use eta_os.Base.{ℕ, ◌+◌, ◌≤◌, ◌<◌, ◌≡◌, refl, ◌∙◌, ◌⊎◌, inl, inr, true, false, arith, ◌==◌, u64}
use eta_os.Memory.{Mem, store64}
use eta_os.Memory.Words.{store64_outside, SameOn, load64_same, load64-store64, load64-store64_other}
use eta_os.Heap.{Heap, length_of, next_of, is_free, combine_forward}

-- The segment at `seg` has swallowed the one at `next`, which is still in the list and free.
pub record Swallowed (m m' : Mem) (seg next : ℕ) : Type 0 where
  pub length_is : length_of m' seg ≡ u64 (length_of m seg + length_of m next + 32)
  pub still_next : next_of m' seg ≡ next
  pub still_free : is_free m' next ≡ true
  pub same_length : length_of m' next ≡ length_of m next

store-Swallowed :
    (m m₁ : Mem) (seg next : ℕ)
    → next_of m seg ≡ next
    → seg + 32 ≤ next
    → is_free m next ≡ true
    → SameOn seg 32 m m₁
    → SameOn next 32 m m₁
    → Swallowed m
        (store64 m₁ seg (u64 (length_of m₁ seg + length_of m₁ (next_of m₁ seg) + 32)))
        seg
        next
store-Swallowed m m₁ seg next is_next behind there near far =
    let next_again : next_of m₁ seg ≡ next =
      load64_same {m = m} {m' = m₁} (seg + 8) (λ x l u. near x (omega arith) (omega arith))
      ∙ is_next in
    let near_length : length_of m₁ seg ≡ length_of m seg =
      load64_same {m = m} {m' = m₁} seg (λ x l u. near x l (omega arith)) in
    let far_length : length_of m₁ next ≡ length_of m next =
      load64_same {m = m} {m' = m₁} next (λ x l u. far x l (omega arith)) in
    let sum = u64 (length_of m seg + length_of m next + 32) in
    let flag : store64 m₁ seg sum (next + 24) ≡ m (next + 24) =
      store64_outside m₁ seg sum (next + 24) (omega arith)
      ∙ far (next + 24) (omega arith) (omega arith) in
    rw (next_again, near_length, far_length)
      (record {
        length_is = load64-store64 m₁ seg sum (omega arith);
        still_next = load64-store64_other m₁ seg (seg + 8) sum (omega arith) ∙ next_again;
        still_free = rw flag there;
        same_length = load64-store64_other m₁ seg next sum (omega arith) ∙ far_length;
      })

-- Where the segment behind is free, and the one behind that is behind it or not there,
-- combine_forward adds its length and leaves it in the list: next still leads to it, and it is
-- still free.
pub combine_forward-Swallowed :
    (h : Heap) (seg next : ℕ)
    → next_of h.mem seg ≡ next
    → seg + 32 ≤ next
    → is_free h.mem next ≡ true
    → (next_of h.mem next ≡ 0) ⊎ (next + 32 ≤ next_of h.mem next)
    → Swallowed h.mem (combine_forward h seg).mem seg next
unfolding combine_forward
combine_forward-Swallowed h seg next is_next behind there (inl last) =
    let positive : (next == 0) ≡ false = ground arith in
    rw (is_next, last, positive, there)
      (store-Swallowed h.mem h.mem seg next is_next behind there (λ x l u. refl) (λ x l u. refl))
combine_forward-Swallowed h seg next is_next behind there (inr order) =
    let positive : (next == 0) ≡ false = ground arith in
    let more : (next_of h.mem next == 0) ≡ false = ground arith in
    let m₁ = store64 h.mem (next_of h.mem next + 16) seg in
    let same : (x : ℕ) → x < next + 32 → m₁ x ≡ h.mem x =
      λ x l. store64_outside h.mem (next_of h.mem next + 16) seg x (omega arith) in
    rw (is_next, more, positive, there)
      (store-Swallowed h.mem m₁ seg next is_next behind there (λ x l u. same x (omega arith))
        (λ x l u. same x u))
