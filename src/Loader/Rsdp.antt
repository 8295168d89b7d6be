-- ===== src/Loader/Rsdp.antt =====
-- Which table the search for the RSDP ends with.
use eta_os.Base.{
  ℕ, zero, suc, ◌+◌, ◌*◌, ◌≤◌, ◌<◌, ◌≡◌, refl, ◌∙◌, ◌⊎◌, inl, inr, arith, ◌==◌, Bool-cases,
}
use eta_os.Memory.{Mem}
use eta_os.Loader.{vendor_table, rsdp_round, find_rsdp_from, find_rsdp}
use eta_os.Loader.Compare.{SameBytes, strncmp-SameBytes}

-- CompareGuid gives 0 exactly for equal GUIDs.
pub record ComparesGuids (compare_guid : Mem → ℕ → ℕ → ℕ) : Type 0 where
  pub equal : (m : Mem) (a b : ℕ) → SameBytes 16 m a b → compare_guid m a b ≡ 0
  pub zero_equal : (m : Mem) (a b : ℕ) → compare_guid m a b ≡ 0 → SameBytes 16 m a b

-- Round `j` takes its table: record `2 * j` has another GUID, and the table that record `j` points to
-- starts with the signature.
abbrev pub TakenAt : Mem → ℕ → ℕ → ℕ → ℕ → Type 0
TakenAt m acpi2_table_guid rsd_ptr config_table j =
    (¬ SameBytes 16 m (config_table + 48 * j) acpi2_table_guid)
    × SameBytes 8 m rsd_ptr (vendor_table m (config_table + 24 * j))

module _ (compare_guid : Mem → ℕ → ℕ → ℕ) (laws : ComparesGuids compare_guid)
    (acpi2_table_guid rsd_ptr : ℕ) (m : Mem) (config_table : ℕ) where
  round-cases :
      (j rsdp : ℕ)
      → let round =
          rsdp_round compare_guid acpi2_table_guid rsd_ptr m (config_table + 24 * j) j rsdp in
        (TakenAt m acpi2_table_guid rsd_ptr config_table j
          × (round ≡ vendor_table m (config_table + 24 * j)))
        ⊎ ((¬ TakenAt m acpi2_table_guid rsd_ptr config_table j) × (round ≡ rsdp))
  unfolding rsdp_round
  round-cases j rsdp =
      let at : config_table + 24 * j + 24 * j ≡ config_table + 48 * j = omega arith in
      rw at (elim (Bool-cases (compare_guid m (config_table + 48 * j) acpi2_table_guid == 0)) [
        | inl zero_is ↦
            let same = laws.zero_equal m (config_table + 48 * j) acpi2_table_guid (ground arith) in
            inr ((λ (other, _). other same), rw zero_is refl)
        | inr differs ↦
            let other : ¬ SameBytes 16 m (config_table + 48 * j) acpi2_table_guid = λ same.
              ground (arith, differs, laws.equal m (config_table + 48 * j) acpi2_table_guid same) in
            (elim (strncmp-SameBytes 8 m rsd_ptr (vendor_table m (config_table + 24 * j))) [
              | inl (one, same) ↦ inl ((other, same), rw (differs, one) refl)
              | inr (none_is, not_same) ↦
                  inr ((λ (_, same). not_same same), rw (differs, none_is) refl)
            ])
      ])

  -- The last round below `n` that takes its table, from round `i` on, or none of them.
  abbrev pub IsLastTaken : ℕ → ℕ → ℕ → ℕ → Type 0
  IsLastTaken i n rsdp result =
      ((j : ℕ) × (i ≤ j)
        × (j < n)
        × TakenAt m acpi2_table_guid rsd_ptr config_table j
        × (result ≡ vendor_table m (config_table + 24 * j))
        × ((j' : ℕ) → j < j' → j' < n → ¬ TakenAt m acpi2_table_guid rsd_ptr config_table j'))
      ⊎ ((result ≡ rsdp)
          × ((j : ℕ) → i ≤ j → j < n → ¬ TakenAt m acpi2_table_guid rsd_ptr config_table j))

  find_rsdp_from-IsLastTaken :
      (left i rsdp : ℕ)
      → IsLastTaken i (i + left) rsdp (
          find_rsdp_from compare_guid acpi2_table_guid rsd_ptr left m
            (config_table + 24 * i)
            i
            rsdp)
  unfolding find_rsdp_from
  find_rsdp_from-IsLastTaken zero i rsdp = inr (refl, λ j l u. absurd (omega arith))
  find_rsdp_from-IsLastTaken (suc left) i rsdp =
      let round =
        rsdp_round compare_guid acpi2_table_guid rsd_ptr m (config_table + 24 * i) i rsdp in
      let next : config_table + 24 * i + 24 ≡ config_table + 24 * (i + 1) = omega arith in
      let count : i + suc left ≡ i + 1 + left = omega arith in
      rw (next, count)
        (elim (find_rsdp_from-IsLastTaken left (i + 1) round) [
          | inl (j, above, below, taken, e, last) ↦ inl (j, omega arith, below, taken, e, last)
          | inr (e, later) ↦ (elim (round-cases i rsdp) [
            | inl (taken, here) ↦
                inl (i, omega arith, omega arith, taken, e ∙ here, λ j l u. later j (omega arith) u)
            | inr (misses, here) ↦ inr (e ∙ here, λ j l u. first_misses i left misses later j l u)
          ])
        ])
    where
      first_misses :
          (i left : ℕ)
          → (¬ TakenAt m acpi2_table_guid rsd_ptr config_table i)
          → ((j : ℕ)
              → i + 1 ≤ j
              → j < i + 1 + left
              → ¬ TakenAt m acpi2_table_guid rsd_ptr config_table j)
          → (j : ℕ) → i ≤ j
          → j < i + 1 + left
          → ¬ TakenAt m acpi2_table_guid rsd_ptr config_table j
      first_misses i left misses later j l u = elim (Bool-cases (j == i)) [
        | inl here ↦ let e : j ≡ i = ground arith in rw e misses
        | inr after ↦ later j (ground arith) u
      ]

  -- With a CompareGuid that gives 0 exactly for equal GUIDs, find_rsdp ends with the table of
  -- the last record j, of as many as the number of records says, for which record 2 * j has
  -- another GUID than the ACPI table's and the table of record j starts with the signature, and
  -- with 0 if there is none.
  pub find_rsdp-IsLastTaken :
      (number_of_table_entries : ℕ)
      → IsLastTaken 0 number_of_table_entries 0
          (find_rsdp compare_guid acpi2_table_guid rsd_ptr m config_table number_of_table_entries)
  unfolding find_rsdp
  find_rsdp-IsLastTaken number_of_table_entries =
      let start : config_table + 24 * 0 ≡ config_table = omega arith in
      let count : 0 + number_of_table_entries ≡ number_of_table_entries = omega arith in
      rw (start, count) at (find_rsdp_from-IsLastTaken number_of_table_entries 0 0)
