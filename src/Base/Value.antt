-- ===== src/Base/Value.antt =====
-- Values that the program stores and passes on: floating-point numbers, instants, JSON payloads.
use Prim.Native.Nat.{ℕ, ◌+◌, ◌*◌}
use Prim.Native.String.{String}
use mathlib.Core.Bool.{Bool}
use graph_ops.Base.Int.{ℤ, pos_part, neg_part, sub_ℕ, is_zero, ltb_ℤ, to_int64}

-- A `float64`, as its 64 bits. The incident service stores these numbers and never computes with
-- them.
pub record Float64 : Type 0 where
  pub bits : ℕ

-- A `time.Time` in UTC: nanoseconds since the zero time, 0001-01-01T00:00:00Z.
pub record Time : Type 0 where
  pub nanos : ℤ

-- `Time.IsZero`.
abbrev pub is_zero_time : Time → Bool
is_zero_time t = is_zero t.nanos

-- `a.After(b)`.
abbrev pub after : Time → Time → Bool
after a b = ltb_ℤ b.nanos a.nanos

-- The zero time lies this many seconds before 1970-01-01T00:00:00Z.
abbrev unix_epoch : ℕ
unix_epoch = 62135596800

-- `Time.UnixNano`, which wraps around outside the years 1678 to 2262.
unfoldable pub unix_nano : Time → ℤ
unix_nano t = to_int64 (sub_ℕ (pos_part t.nanos) (neg_part t.nanos + unix_epoch * 1000000000))

-- The readings of `time.Now().UTC()` in one call of an operation, in the order that it takes them.
abbrev pub Clock : Type 0
Clock = ℕ → Time

-- `any`, as `encoding/json` fills it.
mutual
  pub data Json : Type 0 where
    null : Json
    boolean : Bool → Json
    number : Float64 → Json
    text : String → Json
    array : JsonItems → Json
    object : JsonFields → Json

  pub data JsonItems : Type 0 where
    nil : JsonItems
    cons : Json → JsonItems → JsonItems

  pub data JsonFields : Type 0 where
    end : JsonFields
    field : String → Json → JsonFields → JsonFields
