-- ===== src/Transfer/Quota/Charges.antt =====
-- What commit charges, in memory and in the database.
use tdrive.Base.{
  ℕ, ◌+◌, ◌≡◌, refl, false, Option, none, some, arith, ◌==◌, if◌then◌else◌, Bool-cases, inl, inr,
}
use tdrive.Base.Int.{ℤ}
use tdrive.Transfer.Quota.{
  QuotaKey, same_key, Direction, upload, download, Tracker, Reservation, set_actual, charge,
  usage_of, commit,
}
use tdrive.Transfer.Quota.Crossing.{commit-used}

-- The bytes that a request to store usage carries.
abbrev pub stored_bytes : Option (ℕ × ℕ) → ℕ
stored_bytes none = 0
stored_bytes (some (up, down)) = up + down

stored-charge :
    (d : Direction) (n : ℕ) → stored_bytes (if n == 0 then none else some (usage_of d n)) ≡ n
stored-charge upload n = ground arith
stored-charge download n = ground arith

commit-stored :
    (r : Reservation) (t : Tracker) → r.committed ≡ false → stored_bytes (commit r t).1.1 ≡ charge r
unfolding commit
commit-stored r t o = rw o (stored-charge (r.key.direction) (charge r))

commit-again :
    (r : Reservation) (t later : Tracker) (bytes : ℤ)
    → commit (set_actual bytes (commit r t).0) later ≡ ((commit r t).0, (later, none))
unfolding commit set_actual
commit-again r t later bytes = elim (Bool-cases (r.committed)) [
  | inl e ↦ rw e refl
  | inr e ↦ rw e refl
]

-- The commit of an open reservation adds its charge to the used bytes of its key and to nothing else,
-- and asks the database to store as many bytes. A report and a commit that come later, on any tracker,
-- change nothing and store nothing.
pub commit_once :
    (r : Reservation) (t later : Tracker) (bytes : ℤ) (k : QuotaKey)
    → r.committed ≡ false
    → ((commit r t).1.0.used k ≡ t.used k + (if same_key (r.key) k then charge r else 0))
      × (stored_bytes (commit r t).1.1 ≡ charge r)
      × (commit (set_actual bytes (commit r t).0) later ≡ ((commit r t).0, (later, none)))
commit_once r t later bytes k o =
    (commit-used r t k o, commit-stored r t o, commit-again r t later bytes)
