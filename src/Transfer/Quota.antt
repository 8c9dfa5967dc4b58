-- ===== src/Transfer/Quota.antt =====
-- The daily transfer quotas: internal/drive/quota.go. Byte counts are natural numbers, since every one
-- is clamped at 0 before it is stored; a size that a caller passes may be negative. The stored usage of
-- a day, which TelegramUsageFor reads and which it may fail to read, is an argument; so is the date.
pub mod Admission
pub mod Ledger
pub mod Balance
pub mod Crossing
pub mod Boundary
pub mod Charges
pub mod Examples
use tdrive.Base.{
  ℕ, ◌+◌, ◌-◌, ◌%◌, ◌^◌, Bool, true, false, not, ◌&&◌, ◌||◌, Option, none, some, ltb, leb, ◌==◌,
  if◌then◌else◌,
}
use tdrive.Base.Int.{ℤ, pos, negsuc, pos_part, leb_ℤ, ltb_ℤ}

pub data Direction : Type 0 where
  upload : Direction
  download : Direction

pub record QuotaKey : Type 0 where
  pub account_id : ℕ
  pub date : ℕ
  direction : Direction

abbrev pub key_of : ℕ → ℕ → Direction → QuotaKey
key_of account day way = record { account_id = account; date = day; direction = way }

abbrev pub same_direction : Direction → Direction → Bool
same_direction upload upload = true
same_direction download download = true
same_direction a b = false

abbrev pub same_key : QuotaKey → QuotaKey → Bool
same_key a b =
    (a.account_id == b.account_id)
    && (a.date == b.date)
    && same_direction (a.direction) (b.direction)

abbrev pub put_key : QuotaKey → ℕ → (QuotaKey → ℕ) → QuotaKey → ℕ
put_key key n m k = if same_key key k then n else m k

pub record Tracker : Type 0 where
  pub used : QuotaKey → ℕ
  pub reserved : QuotaKey → ℕ
  pub loaded : ℕ → ℕ → Bool
  pub generation : ℕ

abbrev pub Stored : Type 0
Stored = ℕ → ℕ → Option (ℕ × ℕ)

abbrev pub load_day : ℕ → ℕ → Option (ℕ × ℕ) → Tracker → Tracker
load_day account day none t = t
load_day account day (some (up, down)) t = record {
  used =
      put_key (key_of account day download) down (put_key (key_of account day upload) up (t.used));
  reserved = t.reserved;
  loaded = λ a d. if (account == a) && (day == d) then true else t.loaded a d;
  generation = t.generation;
}

unfoldable pub ensure_loaded : Stored → ℕ → ℕ → Tracker → Tracker
ensure_loaded stored account day t =
    if t.loaded account day then t else load_day account day (stored account day) t

-- The guards that mayStart, fits and reserve share: no room at all.
abbrev pub is_full : ℕ → ℕ → ℕ → Bool
is_full limit used reserved = leb limit used || leb (limit - used) reserved

-- The tracker with the day loaded, and the answer.
unfoldable pub may_start : Stored → QuotaKey → ℕ → ℤ → Tracker → Tracker × Bool
may_start stored key limit size t =
    if leb_ℤ size (pos 0) || leb limit 0
    then (t, true)
    else (let t = ensure_loaded stored (key.account_id) (key.date) t in
        let used = t.used key in
        let reserved = t.reserved key in
        if is_full limit used reserved
        then (t, false)
        else if leb (pos_part size) (limit - used - reserved)
        then (t, true)
        else (t, reserved == 0))

unfoldable pub fits : Stored → QuotaKey → ℕ → ℤ → Tracker → Tracker × Bool
fits stored key limit size t =
    if leb_ℤ size (pos 0) || leb limit 0
    then (t, true)
    else (let t = ensure_loaded stored (key.account_id) (key.date) t in
        let used = t.used key in
        let reserved = t.reserved key in
        if is_full limit used reserved
        then (t, false)
        else (t, leb (pos_part size) (limit - used - reserved)))

pub record Reservation : Type 0 where
  pub key : QuotaKey
  pub expected : ℕ
  actual : ℕ
  actual_set : Bool
  pub committed : Bool

abbrev pub new_reservation : QuotaKey → ℕ → Reservation
new_reservation key size = record {
  key = key;
  expected = size;
  actual = 0;
  actual_set = false;
  committed = false;
}

abbrev pub claim : QuotaKey → ℕ → Tracker → Tracker
claim key size t = record {
  used = t.used;
  reserved = put_key key (t.reserved key + size) (t.reserved);
  loaded = t.loaded;
  generation = t.generation;
}

-- `pos_part` is the clamp of a negative size.
unfoldable pub reserve : Stored → QuotaKey → ℕ → ℤ → Tracker → Tracker × Option Reservation
reserve stored key limit size t =
    let size = pos_part size in
    let t = ensure_loaded stored (key.account_id) (key.date) t in
    let used = t.used key in
    let reserved = t.reserved key in
    if ltb 0 limit && ltb 0 size
    then (if is_full limit used reserved
        then (t, none)
        else if ltb (limit - used - reserved) size && not (reserved == 0)
        then (t, none)
        else (claim key size t, some (new_reservation key size)))
    else (claim key size t, some (new_reservation key size))

unfoldable pub set_actual : ℤ → Reservation → Reservation
set_actual bytes r = if r.committed then r else record {
  key = r.key;
  expected = r.expected;
  actual = pos_part bytes;
  actual_set = true;
  committed = r.committed;
}

-- The bytes a commit charges.
abbrev pub charge : Reservation → ℕ
charge r = if r.actual_set then r.actual else r.expected

abbrev pub signal : Tracker → Tracker
signal t = record {
  used = t.used;
  reserved = t.reserved;
  loaded = t.loaded;
  generation = (t.generation + 1) % 2 ^ 64;
}

abbrev pub settle_quota : Reservation → Tracker → Tracker
settle_quota r t =
    let left =
      if leb (r.expected) (t.reserved (r.key)) then t.reserved (r.key) - r.expected else 0 in
    signal (record {
      used =
          if ltb 0 (charge r) then put_key (r.key) (t.used (r.key) + charge r) (t.used) else t.used;
      reserved = put_key (r.key) left (t.reserved);
      loaded = t.loaded;
      generation = t.generation;
    })

-- The usage that AddTelegramUsage is asked to store, as upload and download bytes.
abbrev pub usage_of : Direction → ℕ → ℕ × ℕ
usage_of upload actual = (actual, 0)
usage_of download actual = (0, actual)

unfoldable pub commit : Reservation → Tracker → Reservation × (Tracker × Option (ℕ × ℕ))
commit r t = if r.committed then (r, (t, none)) else (
  record {
    key = r.key;
    expected = r.expected;
    actual = r.actual;
    actual_set = r.actual_set;
    committed = true;
  },
  (settle_quota r t, if charge r == 0 then none else some (usage_of (r.key.direction) (charge r))),
)

pub record QuotaDirectionStatus : Type 0 where
  limit : ℕ
  used_bytes : ℕ
  reserved_bytes : ℕ
  remaining : ℤ

-- A limit of 0 is no limit, and shows as -1 bytes remaining.
unfoldable pub quota_direction_status : ℕ → ℕ → ℕ → QuotaDirectionStatus
quota_direction_status limit used reserved = record {
  limit = limit;
  used_bytes = used;
  reserved_bytes = reserved;
  remaining = if ltb 0 limit then pos (limit - used - reserved) else negsuc 0;
}

-- `provider` is what the account's DailyQuota answers, when it has that method.
unfoldable pub quota_limit : Option ℤ → ℕ
quota_limit none = 0
quota_limit (some limit) = if ltb_ℤ limit (pos 0) then 0 else pos_part limit

pub record AccountQuotaStatus : Type 0 where
  upload_status : QuotaDirectionStatus
  download_status : QuotaDirectionStatus

-- The snapshot of the settings page, without its two times.
unfoldable pub status : Stored → ℕ → ℕ → ℕ → ℕ → Tracker → Tracker × AccountQuotaStatus
status stored account day upload_limit download_limit t =
    let up = key_of account day upload in
    let down = key_of account day download in
    let t_up = ensure_loaded stored account day t in
    let t_down = ensure_loaded stored account day t_up in
    (
      t_down,
      record {
        upload_status = quota_direction_status upload_limit (t_up.used up) (t_up.reserved up);
        download_status =
            quota_direction_status download_limit (t_down.used down) (t_down.reserved down);
      },
    )
