-- ===== src/Acpi/Find.antt =====
-- Which table is found.
use eta_os.Base.{
  ℕ, zero, suc, ◌+◌, ◌≤◌, ◌<◌, ◌≡◌, refl, sym, ◌⊎◌, inl, inr, true, false, arith, leb, ◌==◌, ==_iff,
  Bool-cases,
}
use eta_os.Memory.{Mem}
use eta_os.Acpi.{entries, new_sdt_header, is_signature, find_from, find_table}

-- The four characters at `header` are those at `signature`, and are below 128.
abbrev pub HasSignature : Mem → ℕ → ℕ → Type 0
HasSignature m header signature =
    (j : ℕ) → j < 4 → (m (header + j) ≡ m (signature + j)) × (m (signature + j) < 128)

Tail : Mem → ℕ → ℕ → ℕ → Type 0
Tail m header signature i =
    (j : ℕ) → i ≤ j → j < 4 → (m (header + j) ≡ m (signature + j)) × (m (signature + j) < 128)

is_signature_sound :
    (left : ℕ) (m : Mem) (header signature j : ℕ)
    → j + left ≡ 4
    → is_signature left m header signature j ≡ true
    → Tail m header signature j
unfolding is_signature Tail
is_signature_sound zero m header signature j e matched k lo hi = absurd (omega arith)
is_signature_sound (suc left) m header signature j e matched k lo hi = elim (Bool-cases (k == j)) [
  | inl here ↦ let same : k ≡ j = (==_iff k j).0 here in rw same (ground arith, ground arith)
  | inr later ↦
      is_signature_sound left m header signature (j + 1) (omega arith) (ground arith) k
        (ground arith) hi
]

is_signature_complete :
    (left : ℕ) (m : Mem) (header signature j : ℕ)
    → j + left ≡ 4
    → 0 < left
    → Tail m header signature j
    → is_signature left m header signature j ≡ true
unfolding is_signature Tail
is_signature_complete zero m header signature j e some' tail = absurd (omega arith)
is_signature_complete (suc left) m header signature j e some' tail =
    let (same, low) = tail j (omega arith) (omega arith) in
    elim (Bool-cases (j == 3)) [
      | inl last ↦ ground arith
      | inr more ↦
          let rest =
            is_signature_complete left m header signature (j + 1) (omega arith) (ground arith)
              (λ k lo hi. tail k (omega arith) hi) in
          ground arith
    ]

-- Pointer `i`, below the number of pointers, leads to the result, and no pointer before it does
-- to a table of the signature.
pub record FoundAt (m : Mem) (sdt_header signature first count found : ℕ) : Type 0 where
  pub place : ℕ
  pub inside : (first ≤ place) × (place < count)
  pub is_there : found ≡ new_sdt_header m sdt_header place
  pub fits : HasSignature m (new_sdt_header m sdt_header place) signature
  pub earliest :
      (i : ℕ) → first ≤ i → i < place → ¬ HasSignature m (new_sdt_header m sdt_header i) signature

pub record Missing (m : Mem) (sdt_header signature first count found : ℕ) : Type 0 where
  pub is_null : found ≡ 0
  pub none_fits :
      (i : ℕ) → first ≤ i → i < count → ¬ HasSignature m (new_sdt_header m sdt_header i) signature

no_match :
    (m : Mem) (header signature : ℕ)
    → is_signature 4 m header signature 0 ≡ false
    → ¬ HasSignature m header signature
unfolding Tail
no_match m header signature differs has =
    let matched =
      is_signature_complete 4 m header signature 0 refl (omega arith) (λ j lo hi. has j hi) in
    ground arith

find_from_lem :
    (left : ℕ) (m : Mem) (sdt_header signature i count : ℕ)
    → i + left ≡ count
    → FoundAt m sdt_header signature i count (find_from left m sdt_header signature i)
      ⊎ Missing m sdt_header signature i count (find_from left m sdt_header signature i)
unfolding find_from Tail
find_from_lem zero m sdt_header signature i count e =
    inr (record { is_null = refl; none_fits = λ k lo hi. absurd (omega arith) })
find_from_lem (suc left) m sdt_header signature i count e =
    let header = new_sdt_header m sdt_header i in
    elim (Bool-cases (is_signature 4 m header signature 0)) [
      | inl matched ↦ inl (record {
        place = i;
        inside = (omega arith, omega arith);
        is_there = rw matched refl;
        fits = λ j l. is_signature_sound 4 m header signature 0 refl matched j (omega arith) l;
        earliest = λ k lo hi. absurd (omega arith);
      })
      | inr differs ↦
          (let miss = no_match m header signature differs in
            let skip : (k : ℕ)
                → i ≤ k
                → ¬ (i + 1 ≤ k)
                → ¬ HasSignature m (new_sdt_header m sdt_header k) signature =
              λ k lo near has. let e : k ≡ i = omega arith in miss (λ j l. rw (sym e) (has j l)) in
            elim (find_from_lem left m sdt_header signature (i + 1) count (omega arith)) [
              | inl f ↦ inl (record {
                place = f.place;
                inside = (ground (arith, f.inside), ground (arith, f.inside));
                is_there = rw differs f.is_there;
                fits = f.fits;
                earliest = λ k lo hi. elim (Bool-cases (leb (i + 1) k)) [
                  | inl later ↦ f.earliest k (ground arith) hi
                  | inr near ↦ skip k lo (ground arith)
                ];
              })
              | inr g ↦ inr (record {
                is_null = rw differs g.is_null;
                none_fits = λ k lo hi. elim (Bool-cases (leb (i + 1) k)) [
                  | inl later ↦ g.none_fits k (ground arith) (omega arith)
                  | inr near ↦ skip k lo (ground arith)
                ];
              })
            ])
    ]

-- find_table gives the first table of the signature among those that the pointers lead to, or
-- NULL if there is none.
pub find_table-FoundAt :
    (m : Mem) (sdt_header signature : ℕ)
    → FoundAt m sdt_header signature 0 (entries m sdt_header) (find_table m sdt_header signature)
      ⊎ Missing m sdt_header signature 0 (entries m sdt_header) (find_table m sdt_header signature)
unfolding find_table
find_table-FoundAt m sdt_header signature =
    find_from_lem (entries m sdt_header) m sdt_header signature 0 (entries m sdt_header)
      (omega arith)
