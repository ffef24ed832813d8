-- ===== src/Socket/Object/Timeout.antt =====
-- The overload of `select` of src/basic_socket.h that takes a duration.
use aprs_wx.Prelude.{arith, ℕ, ◌%◌, ◌*◌, ◌+◌, ◌-◌, ◌/◌, ◌<◌, ◌^◌, ◌≡◌}

-- `struct timeval`.
pub record Timeval : Type 0 where
  pub tv_sec : ℕ
  pub tv_usec : ℕ

-- The two casts, on a duration of `d` microseconds that is not negative.
unfoldable pub timeval_of : ℕ → Timeval
timeval_of d =
    let sec = d / 1000000 in record { tv_sec = sec % 2 ^ 32; tv_usec = d - sec * 1000000 }

-- The timeout has less than a million microseconds, and is the duration, if that has fewer than 2 ^ 32
-- seconds; for a longer one it is short by a multiple of 2 ^ 32 seconds.
pub timeval_of-exact :
    (d : ℕ)
    → ((timeval_of d).tv_usec < 1000000)
      × ((timeval_of d).tv_sec * 1000000
            + (timeval_of d).tv_usec
            + d / 1000000 / 2 ^ 32 * 2 ^ 32 * 1000000
          ≡ d)
unfolding timeval_of
timeval_of-exact d = (omega arith, omega arith)
