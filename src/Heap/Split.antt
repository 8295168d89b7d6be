-- ===== src/Heap/Split.antt =====
-- What `split` writes, and the headers that it leaves.
use eta_os.Base.{ℕ, ◌+◌, ◌^◌, ◌≤◌, ◌<◌, ◌≡◌, ◌∙◌, true, false, arith}
use eta_os.Memory.{Mem, store8, store64}
use eta_os.Memory.Words.{
  Apart, store64_outside, load64_same, load64-store64, load64-store64_other, store8_outside,
  store8_self, load64-store8_other,
}
use eta_os.Heap.{last_of}
use eta_os.Heap.Chain.{Header}

-- The stores of a split of the segment at `a` and of marking it, with what they read put in: `p` is
-- the place of the `last` of the segment behind.
module _ (m : Mem) (a p new next d n : ℕ) where
  unfoldable pub relinked : Mem
  relinked = store64 (store64 (store64 m p new) (new + 8) next) (a + 8) new

  unfoldable pub headed : Mem
  unfolding relinked
  headed = store8 (store64 (store64 relinked (new + 16) a) new d) (new + 24) 1

  unfoldable pub parted : Mem
  unfolding headed
  parted = store8 (store64 headed a n) (a + 24) 0

  module _ (pa : Apart p 8 a 32) (pn : Apart p 8 new 32) (an : a + 32 ≤ new) where
    relinked_outside :
        (x : ℕ) → Apart p 8 x 1 → Apart (a + 8) 8 x 1 → Apart (new + 8) 8 x 1 → relinked x ≡ m x
    unfolding relinked
    relinked_outside x h₁ h₂ h₃ =
        store64_outside _ (a + 8) new x h₂
        ∙ store64_outside _ (new + 8) next x h₃
        ∙ store64_outside m p new x h₁

    pub headed_outside : (x : ℕ) → Apart new 8 x 1 → Apart (new + 16) 9 x 1 → headed x ≡ relinked x
    unfolding headed
    headed_outside x h₁ h₂ =
        store8_outside _ (new + 24) 1 x (omega arith)
        ∙ store64_outside _ new d x h₁
        ∙ store64_outside relinked (new + 16) a x (omega arith)

    pub parted_outside : (x : ℕ) → Apart a 8 x 1 → Apart (a + 24) 1 x 1 → parted x ≡ headed x
    unfolding parted
    parted_outside x h₁ h₂ = store8_outside _ (a + 24) 0 x h₂ ∙ store64_outside headed a n x h₁

    pub parted_behind :
        (x : ℕ)
        → Apart p 8 x 1
        → Apart a 16 x 1
        → Apart (a + 24) 1 x 1
        → Apart new 32 x 1
        → parted x ≡ m x
    parted_behind x h₁ h₂ h₃ h₄ =
        parted_outside x (omega arith) h₃
        ∙ headed_outside x (omega arith) (omega arith)
        ∙ relinked_outside x h₁ (omega arith) (omega arith)

    pub first_Header :
        (last : ℕ)
        → new < 2 ^ 64
        → n < 2 ^ 64
        → last_of m a ≡ last
        → Header parted last a (record { size = n; used = true }) new
    unfolding parted headed relinked
    first_Header last new_fits n_fits e = record {
      length_is =
          (load64-store8_other _ (a + 24) a 0 (omega arith)) ∙ load64-store64 headed a n n_fits;
      next_is =
          load64_same {m = relinked} {m' = parted} (a + 8) (λ x l u.
            parted_outside x (omega arith) (omega arith)
            ∙ headed_outside x (omega arith) (omega arith))
          ∙ load64-store64 _ (a + 8) new new_fits;
      last_is =
          load64_same {m = m} {m' = parted} (a + 16)
            (λ x l u. parted_behind x (omega arith) (omega arith) (omega arith) (omega arith))
          ∙ e;
      flag_is = store8_self _ (a + 24) 0;
    }

    pub second_Header :
        next < 2 ^ 64
        → a < 2 ^ 64
        → d < 2 ^ 64
        → Header parted a new (record { size = d; used = false }) next
    unfolding parted headed relinked
    second_Header next_fits a_fits d_fits = record {
      length_is =
          load64_same {m = headed} {m' = parted} new
            (λ x l u. parted_outside x (omega arith) (omega arith))
          ∙ (load64-store8_other _ (new + 24) new 1 (omega arith))
          ∙ load64-store64 _ new d d_fits;
      next_is =
          load64_same {m = relinked} {m' = parted} (new + 8) (λ x l u.
            parted_outside x (omega arith) (omega arith)
            ∙ headed_outside x (omega arith) (omega arith))
          ∙ (load64-store64_other _ (a + 8) (new + 8) new (omega arith))
          ∙ load64-store64 _ (new + 8) next next_fits;
      last_is =
          load64_same {m = headed} {m' = parted} (new + 16)
            (λ x l u. parted_outside x (omega arith) (omega arith))
          ∙ (load64-store8_other _ (new + 24) (new + 16) 1 (omega arith))
          ∙ load64-store64_other _ new (new + 16) d (omega arith)
          ∙ load64-store64 relinked (new + 16) a a_fits;
      flag_is = parted_outside (new + 24) (omega arith) (omega arith) ∙ store8_self _ (new + 24) 1;
    }
