-- ===== src/Sync/Watermark/Bounds.antt =====
-- The bounds of internal/eds/pkg/datasync/watermark.go.
use eamerald.Base.{ℕ, ◌+◌, ◌-◌, ◌*◌, ◌%◌, ◌^◌, ◌≤◌, ◌<◌, ◌≡◌, ◌⊎◌, refl, false, Option, some, arith}
use eamerald.Data.{Timestamp}
use eamerald.Sync.Watermark.{
  Watermark, get_filter_size, is_later, max_ts, get_watermark, set_watermark,
}

-- Rounding up to the next thousand, where it does not wrap around.
round_up :
    (g : ℕ)
    → g + 1000 < 2 ^ 64
    → ((g + (1000 - g % 1000)) % 2 ^ 64 ≡ g + (1000 - g % 1000))
      × ((g + (1000 - g % 1000)) % 1000 ≡ 0)
round_up g h = (omega arith, omega arith)

-- For a watermark whose total count, doubled, is at least 1000 below the limit of uint, the size of
-- the filter is at least twice the count and at least 100000, is a whole number of thousands, and
-- is 100000 or at most 1000 above twice the count.
pub get_filter_size-bounds :
    (wm : Watermark)
    → wm.total_count * 2 + 1000 < 2 ^ 64
    → (wm.total_count * 2 ≤ get_filter_size wm)
      × (100000 ≤ get_filter_size wm)
      × (get_filter_size wm % 1000 ≡ 0)
      × ((get_filter_size wm ≡ 100000) ⊎ (get_filter_size wm ≤ wm.total_count * 2 + 1000))
unfolding get_filter_size
get_filter_size-bounds wm h =
    let n = wm.total_count in
    let growth : (n * 2) % 2 ^ 64 ≡ n * 2 = omega arith in
    let (fits, whole) = round_up (n * 2) h in
    rw (growth, fits) (ground arith, ground arith, ground (arith, whole), ground arith)

-- The later timestamp is one of the two, and neither is later.
max_ts-upper :
    (lhs rhs : Option Timestamp)
    → (is_later lhs (max_ts lhs rhs) ≡ false)
      × (is_later rhs (max_ts lhs rhs) ≡ false)
      × ((max_ts lhs rhs ≡ lhs) ⊎ (max_ts lhs rhs ≡ rhs))
unfolding max_ts
max_ts-upper lhs rhs = (ground arith, ground arith, ground arith)

-- A watermark that is written is not before the one in the file, nor before the time of the sync,
-- and its total is the sum of the two counts of keys, as a uint.
pub set_watermark-upper :
    (file : Option Watermark) (objects relations : ℕ) (ts : Timestamp)
    → (wm : Watermark) × (set_watermark file objects relations (some ts) ≡ some wm)
      × (is_later (get_watermark file).timestamp wm.timestamp ≡ false)
      × (is_later (some ts) wm.timestamp ≡ false)
      × (wm.total_count ≡ (objects + relations) % 2 ^ 64)
unfolding set_watermark
set_watermark-upper file objects relations ts =
    let (above_old, above_new, _) = max_ts-upper (get_watermark file).timestamp (some ts) in
    (_, refl, above_old, above_new, refl)
