-- ===== src/Rater.antt =====
-- internal/rater/rater.go: a reader that counts its bytes and takes the time. A time is its
-- distance from Go's zero time in nanoseconds, so that zero is Go's zero time.
use ceph_provider.Prelude.{ℕ, ◌-◌, String, ◌==◌, leb, ltb, if◌then◌else◌}
use ceph_provider.Prelude.Words.{add_64, two_64, two_63}
use ceph_provider.Errors.{Error}
use ceph_provider.Exec.{Exec, pure, ◌>>=◌}

-- How a Read ended: no error, io.EOF itself, or another error.
pub data ReadEnd : Type 0 where
  going eof : ReadEnd
  failed : Error → ReadEnd

-- io.Reader and time.Now. A Read returns the count of bytes, also beside an error.
pub record Source (C : Type 0) : Type 0 where
  pub read : ℕ → Exec C (ℕ × ReadEnd)
  pub now : Exec C ℕ

-- The reader itself is the source.
pub record Rater : Type 0 where
  pub count : ℕ
  pub start : ℕ
  pub end : ℕ

abbrev pub new_rater : Rater
new_rater = record { count = 0; start = 0; end = 0 }

-- Time.Sub at times below 2 ^ 63 of each other: an int64 of nanoseconds, else its largest or smallest.
unfoldable pub sub_time : ℕ → ℕ → ℕ
sub_time t u =
    if leb u t
    then (if ltb (t - u) two_63 then t - u else two_63 - 1)
    else if leb (u - t) two_63
    then two_64 - (u - t)
    else two_63

module _ {C : Type 0} (source : Source C) where
  -- time.Now() where the time is not set
  unfoldable pub now_if_zero : ℕ → Exec C ℕ
  now_if_zero t = if t == 0 then source.now else pure t

  unfoldable pub ended : Rater → ReadEnd → Exec C Rater
  ended r going = pure r
  ended r eof = do now ← source.now; pure (record r { end = now })
  ended r (failed e) = pure r

  -- Read into a buffer of `size` bytes: the rater after it, and what the reader returned.
  unfoldable pub read : ℕ → Rater → Exec C (Rater × ℕ × ReadEnd)
  unfolding now_if_zero ended
  read size r = do
    start ← now_if_zero r.start
    (n, outcome) ← source.read size
    r' ← ended (record r { start = start; count = add_64 r.count n }) outcome
    pure (r', n, outcome)

  -- The count of bytes (int64) and the duration.
  unfoldable pub rate : Rater → Exec C (ℕ × ℕ)
  unfolding now_if_zero sub_time
  rate r = do
    end ← now_if_zero r.end
    if r.start == 0 then pure (r.count, 0) else pure (r.count, sub_time end r.start)

  -- String, over the formatting of the quotient of two float64.
  unfoldable pub rate_string : (ℕ → ℕ → String) → Rater → Exec C String
  unfolding rate
  rate_string format r = do (n, d) ← rate r; if d == 0 then pure "0 b/s" else pure (format n d)
