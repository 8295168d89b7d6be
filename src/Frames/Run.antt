-- ===== src/Frames/Run.antt =====
-- The allocator in use: any sequence of the calls that it offers, in any order.
use eta_os.Base.{ℕ}
use eta_os.Frames.{Kernel, lock_page, reserve_page, free_page, unreserve_page, request_page}
use eta_os.Frames.Ledger.{
  IsLedger, lock_page-IsLedger, reserve_page-IsLedger, free_page-IsLedger, unreserve_page-IsLedger,
  request_page-IsLedger,
}
use eta_os.Frames.Scan.{
  IsScanned, lock_page-IsScanned, reserve_page-IsScanned, free_page-IsScanned,
  unreserve_page-IsScanned, request_page-IsScanned,
}

-- One call on the allocator, with any address.
pub data Call : Kernel → Kernel → Type 0 where
  lock : (s : Kernel) (addr : ℕ) → Call s (lock_page s addr)
  free : (s : Kernel) (addr : ℕ) → Call s (free_page s addr)
  reserve : (s : Kernel) (addr : ℕ) → Call s (reserve_page s addr)
  unreserve : (s : Kernel) (addr : ℕ) → Call s (unreserve_page s addr)
  request : (s : Kernel) → Call s (request_page s).0

pub data Calls (s : Kernel) : Kernel → Type 0 where
  here : Calls s s
  next : {t u : Kernel} → Calls s t → Call t u → Calls s u

-- The counters agree with the locked pages, and the search passes no free page over.
pub record IsSound (total : ℕ) (s : Kernel) : Type 0 where
  pub ledger : IsLedger total s
  pub scanned : IsScanned s

Call-IsSound : {total : ℕ} {s t : Kernel} → Call s t → IsSound total s → IsSound total t
Call-IsSound (lock s addr) h = record {
  ledger = lock_page-IsLedger addr h.ledger;
  scanned = lock_page-IsScanned s addr h.scanned;
}
Call-IsSound (free s addr) h = record {
  ledger = free_page-IsLedger addr h.ledger;
  scanned = free_page-IsScanned s addr h.scanned;
}
Call-IsSound (reserve s addr) h = record {
  ledger = reserve_page-IsLedger addr h.ledger;
  scanned = reserve_page-IsScanned s addr h.scanned;
}
Call-IsSound (unreserve s addr) h = record {
  ledger = unreserve_page-IsLedger addr h.ledger;
  scanned = unreserve_page-IsScanned s addr h.scanned;
}
Call-IsSound (request s) h = record {
  ledger = request_page-IsLedger h.ledger;
  scanned = request_page-IsScanned s h.scanned;
}

-- Any sequence of lock_page, free_page, reserve_page, unreserve_page and request_page keeps the
-- sum of the three counters, keeps those of locked memory at 4096 for each locked page (all
-- modulo 2^64), and keeps every page below the search index locked.
pub Calls-IsSound : {total : ℕ} {s t : Kernel} → IsSound total s → Calls s t → IsSound total t
Calls-IsSound h here = h
Calls-IsSound h (next way call) = Call-IsSound call (Calls-IsSound h way)
