-- ===== src/Sensor/Single.antt =====
-- `float` with the operations that the sensor programs use. They are the platform's: an instance
-- argument.
use aprs_wx.Prelude.{Bool, Bytes, ℕ}

pub record Single (S : Type 0) : Type 0 where
  -- The float nearest to m / 10 ^ k, for the literals of the source.
  pub literal : ℕ → ℕ → S
  -- An `int` that is not negative, converted.
  pub of_int : ℕ → S
  pub add : S → S → S
  pub mul : S → S → S
  pub div : S → S → S
  -- -x, as the product with the literal -1.
  pub negated : S → S
  -- x / 10.0 in `double`, converted to `float`.
  pub tenth : S → S
  -- `==`.
  pub same : S → S → Bool
  -- `%.1f`.
  pub show : S → Bytes
