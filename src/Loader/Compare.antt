-- ===== src/Loader/Compare.antt =====
-- What the two comparisons tell.
use eta_os.Base.{
  ℕ, zero, suc, ◌+◌, ◌-◌, ◌<◌, ◌≡◌, refl, sym, ◌⊎◌, inl, inr, arith, ltb, ◌==◌, ltb→lt, ==_iff,
  Bool-cases,
}
use eta_os.Memory.{Mem}
use eta_os.Loader.{ℤ, pos, negsuc, memcmp, strncmp}

-- The `n` bytes from `a` on are those from `b` on.
abbrev pub SameBytes : ℕ → Mem → ℕ → ℕ → Type 0
SameBytes n m a b = (j : ℕ) → j < n → m (a + j) ≡ m (b + j)

same_tail : (n : ℕ) (m : Mem) (a b : ℕ) → SameBytes (suc n) m a b → SameBytes n m (a + 1) (b + 1)
same_tail n m a b same j l =
    let e = same (j + 1) (omega arith) in
    let p : a + 1 + j ≡ a + (j + 1) = omega arith in
    let q : b + 1 + j ≡ b + (j + 1) = omega arith in rw (p, q) e

same_head :
    (n : ℕ) (m : Mem) (a b : ℕ)
    → m a ≡ m b
    → SameBytes n m (a + 1) (b + 1)
    → SameBytes (suc n) m a b
same_head n m a b here same j l = elim (Bool-cases (j == 0)) [
  | inl first ↦
      let e : j ≡ 0 = (==_iff j 0).0 first in
      let p : a + 0 ≡ a = omega arith in let q : b + 0 ≡ b = omega arith in rw (e, p, q) here
  | inr later ↦
      let e = same (j - 1) (ground arith) in
      let p : a + 1 + (j - 1) ≡ a + j = ground arith in
      let q : b + 1 + (j - 1) ≡ b + j = ground arith in rw (sym p, sym q) e
]

-- The bytes first differ at `place`, and `result` tells which of the two is less there.
pub record DifferAt (n : ℕ) (m : Mem) (a b : ℕ) (result : ℤ) : Type 0 where
  pub place : ℕ
  pub inside : place < n
  pub same_before : SameBytes place m a b
  pub order :
      ((m (a + place) < m (b + place)) × (result ≡ negsuc 0))
      ⊎ ((m (b + place) < m (a + place)) × (result ≡ pos 1))

differ_here :
    (n : ℕ) (m : Mem) (a b : ℕ) (result : ℤ)
    → ((m a < m b) × (result ≡ negsuc 0)) ⊎ ((m b < m a) × (result ≡ pos 1))
    → DifferAt (suc n) m a b result
differ_here n m a b result order =
    let p : a + 0 ≡ a = omega arith in
    let q : b + 0 ≡ b = omega arith in
    record {
      place = 0;
      inside = omega arith;
      same_before = λ j l. absurd (omega arith);
      order = rw (p, q) order;
    }

differ_later :
    (n : ℕ) (m : Mem) (a b : ℕ) (result : ℤ)
    → m a ≡ m b
    → DifferAt n m (a + 1) (b + 1) result
    → DifferAt (suc n) m a b result
differ_later n m a b result here d =
    let p : a + suc d.place ≡ a + 1 + d.place = omega arith in
    let q : b + suc d.place ≡ b + 1 + d.place = omega arith in
    record {
      place = suc d.place;
      inside = omega (arith, d.inside);
      same_before = same_head d.place m a b here d.same_before;
      order = rw (p, q) d.order;
    }

-- memcmp is 0 if all bytes are equal, and otherwise -1 or 1, as the first byte of a that
-- differs is less or greater than that of b.
pub memcmp-DifferAt :
    (n : ℕ) (m : Mem) (a b : ℕ)
    → ((memcmp n m a b ≡ pos 0) × SameBytes n m a b) ⊎ DifferAt n m a b (memcmp n m a b)
unfolding memcmp
memcmp-DifferAt zero m a b = inl (refl, λ j l. absurd (omega arith))
memcmp-DifferAt (suc n) m a b = elim (Bool-cases (ltb (m a) (m b))) [
  | inl less ↦ inr (rw less (differ_here n m a b _ (inl (ltb→lt (m a) (m b) less, refl))))
  | inr not_less ↦ (elim (Bool-cases (ltb (m b) (m a))) [
    | inl more ↦
        inr (rw (not_less, more) (differ_here n m a b _ (inr (ltb→lt (m b) (m a) more, refl))))
    | inr not_more ↦
        (let here : m a ≡ m b = ground arith in
          elim (memcmp-DifferAt n m (a + 1) (b + 1)) [
            | inl (e, same) ↦ inl (rw (not_less, not_more) e, same_head n m a b here same)
            | inr d ↦ inr (rw (not_less, not_more) (differ_later n m a b _ here d))
          ])
  ])
]

-- strncmp is 1 exactly if the characters are equal, and otherwise 0.
pub strncmp-SameBytes :
    (n : ℕ) (m : Mem) (a b : ℕ)
    → ((strncmp n m a b ≡ 1) × SameBytes n m a b) ⊎ ((strncmp n m a b ≡ 0) × ¬ SameBytes n m a b)
unfolding strncmp
strncmp-SameBytes zero m a b = inl (refl, λ j l. absurd (omega arith))
strncmp-SameBytes (suc n) m a b = elim (Bool-cases (m a == m b)) [
  | inl here ↦ (elim (strncmp-SameBytes n m (a + 1) (b + 1)) [
    | inl (e, same) ↦ inl (rw here e, same_head n m a b (ground arith) same)
    | inr (e, other) ↦ inr (rw here e, λ same. other (same_tail n m a b same))
  ])
  | inr differ ↦ inr (rw differ refl, λ same. let e = same 0 (omega arith) in ground arith)
]
