-- ===== src/Sync/Watermark.antt =====
-- internal/eds/pkg/datasync/watermark.go: how far a sync has come, and the size of the filter of the
-- next one. The file that holds the watermark is the argument of what reads it.
pub mod Bounds
use eamerald.Base.{
  ℕ, ◌+◌, ◌-◌, ◌*◌, ◌%◌, ◌^◌, Bool, true, ◌&&◌, ◌||◌, Option, none, some, if◌then◌else◌, ltb, ◌==◌,
}
use eamerald.Base.Int.{ℤ, pos, ltb_ℤ, eqb_ℤ}
use eamerald.Data.{Timestamp}

-- The time of LastUpdated is Timestamp again, as a text. Counts are uint, of 64 bits.
pub record Watermark : Type 0 where
  pub timestamp : Option Timestamp
  pub total_count : ℕ
  pub object_count : ℕ
  pub relation_count : ℕ

abbrev pub no_timestamp : Timestamp
no_timestamp = record { seconds = pos 0; nanos = pos 0 }

abbrev pub new_watermark : Watermark
new_watermark = record {
  timestamp = some no_timestamp;
  total_count = 0;
  object_count = 0;
  relation_count = 0;
}

abbrev pub init_filter_size : ℕ
init_filter_size = 100000

abbrev pub growth_factor : ℕ
growth_factor = 2

abbrev pub rounding : ℕ
rounding = 1000

unfoldable pub get_filter_size : Watermark → ℕ
get_filter_size wm =
    let growth_size = (wm.total_count * growth_factor) % 2 ^ 64 in
    if wm.total_count == 0
    then init_filter_size
    else if ltb growth_size init_filter_size
    then init_filter_size
    else (growth_size + (rounding - growth_size % rounding)) % 2 ^ 64

-- The getters of a nil timestamp return zeros.
abbrev pub get_seconds : Option Timestamp → ℤ
get_seconds none = pos 0
get_seconds (some ts) = ts.seconds

abbrev pub get_nanos : Option Timestamp → ℤ
get_nanos none = pos 0
get_nanos (some ts) = ts.nanos

-- The two conditions of maxTS.
abbrev pub is_later : Option Timestamp → Option Timestamp → Bool
is_later lhs rhs =
    ltb_ℤ (get_seconds rhs) (get_seconds lhs)
    || (eqb_ℤ (get_seconds lhs) (get_seconds rhs) && ltb_ℤ (get_nanos rhs) (get_nanos lhs))

unfoldable pub max_ts : Option Timestamp → Option Timestamp → Option Timestamp
max_ts lhs rhs = if is_later lhs rhs then lhs else rhs

-- A file that is not there, or that does not decode, is a new watermark.
unfoldable pub get_watermark : Option Watermark → Watermark
get_watermark none = new_watermark
get_watermark (some wm) = wm

-- The watermark that setWatermark writes, with the numbers of keys in the two buckets; none is the
-- panic of a nil timestamp.
unfoldable pub set_watermark : Option Watermark → ℕ → ℕ → Option Timestamp → Option Watermark
unfolding get_watermark max_ts
set_watermark file objects relations none = none
set_watermark file objects relations (some ts) = some (record {
  timestamp = max_ts (get_watermark file).timestamp (some ts);
  total_count = (objects + relations) % 2 ^ 64;
  object_count = objects;
  relation_count = relations;
})
