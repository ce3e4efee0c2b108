-- ===== src/Drivers/Clock.antt =====
-- The real-time clock, `cmos_rtc_irq8_handler` of src/kernel/interrupts/pic.c: reading the date, and
-- its conversion from the clock's own form. The readings come from the chip, so they are arguments.
use toy_kernel.Common.{
  ℕ, ◌+◌, ◌*◌, ◌/◌, ◌%◌, ◌<◌, bit_and, bit_or, ◌≡◌, Bool, ◌&&◌, Option, none, some, List, [], ◌∷◌,
  arith, ◌==◌, if◌then◌else◌, u8, u16,
}
use toy_kernel.Common.Bits.Split.{bit_and-ones}

pub record DateTime : Type 0 where
  pub second : ℕ
  pub minute : ℕ
  pub hour : ℕ
  pub day : ℕ
  pub month : ℕ
  pub year : ℕ

unfoldable pub same_datetime : DateTime → DateTime → Bool
same_datetime a b =
    a.second == b.second
    && a.minute == b.minute
    && a.hour == b.hour
    && a.day == b.day
    && a.month == b.month
    && a.year == b.year

-- The `do` loop over the readings that follow `new`: it ends at the first that equals the one before
-- it. `none` is no such reading.
unfoldable pub settle : DateTime → List DateTime → Option DateTime
unfolding same_datetime
settle new [] = none
settle new (next ∷ readings) =
    let rest = settle next readings in if same_datetime next new then some next else rest

-- `(v & 0x0F) + ((v / 16) * 10)` in a `uint8_t`.
unfoldable pub from_bcd : ℕ → ℕ
from_bcd v = u8 (bit_and v 0x0f + v / 16 * 10)

unfoldable pub hour_from_bcd : ℕ → ℕ
hour_from_bcd v = u8 (bit_or (bit_and v 0x0f + bit_and v 0x70 / 16 * 10) (bit_and v 0x80))

unfoldable pub to_24_hours : ℕ → ℕ
to_24_hours hour = (bit_and hour 0x7f + 12) % 24

-- The conversions, by the status register B.
unfoldable pub convert : (reg_b : ℕ) → DateTime → DateTime
unfolding from_bcd hour_from_bcd to_24_hours
convert reg_b t =
    let binary =
      if bit_and reg_b 0x04 == 0
      then record {
        second = from_bcd t.second;
        minute = from_bcd t.minute;
        hour = hour_from_bcd t.hour;
        day = from_bcd t.day;
        month = from_bcd t.month;
        year = from_bcd t.year;
      }
      else t in
    let hours =
      if bit_and reg_b 0x02 == 0
      then record binary { hour = to_24_hours binary.hour }
      else binary in
    record hours { year = u16 (hours.year + 2000) }

-- Whether this interrupt, the one after `rtc_ticks` of them, reads the date.
unfoldable pub rtc_tick : (rtc_ticks : ℕ) → ℕ × Bool
rtc_tick rtc_ticks = let ticks = u16 (rtc_ticks + 1) in (ticks, ticks % 1024 == 0)

-- A two-digit number in BCD is converted to its value.
pub from_bcd_lem :
    (tens ones : ℕ) → tens < 10 → ones < 10 → from_bcd (tens * 16 + ones) ≡ tens * 10 + ones
unfolding from_bcd
from_bcd_lem tens ones ht ho = omega (arith, bit_and-ones 4 (tens * 16 + ones))
