-- ===== src/Pool/Time.antt =====
-- How long an idle connection lasts in src/connections_pool.c.
use libgroupcache.Base.{
  ℕ, ◌+◌, ◌-◌, ◌*◌, ◌/◌, ◌<◌, ◌≤◌, Bool, not, ltb, ◌==◌, if◌then◌else◌, ◌≡◌, arith,
}

-- struct timeval: seconds, and millionths of them.
pub record TimeVal : Type 0 where
  pub tv_sec : ℕ
  pub tv_usec : ℕ

abbrev pub million : ℕ
million = 1000000

-- timersub, of an earlier time
unfoldable pub timersub : TimeVal → TimeVal → TimeVal
timersub a b =
    if ltb a.tv_usec b.tv_usec
    then record { tv_sec = a.tv_sec - b.tv_sec - 1; tv_usec = a.tv_usec + million - b.tv_usec }
    else record { tv_sec = a.tv_sec - b.tv_sec; tv_usec = a.tv_usec - b.tv_usec }

-- timercmp, with >
unfoldable pub later : TimeVal → TimeVal → Bool
later a b = if a.tv_sec == b.tv_sec then ltb b.tv_usec a.tv_usec else ltb b.tv_sec a.tv_sec

-- is_connection_time_valid. The millionths of the threshold are not taken modulo a million.
unfoldable pub is_time_valid : ℕ → TimeVal → TimeVal → Bool
is_time_valid expire_time now conn_time =
    let threshold : TimeVal = record {
      tv_sec = expire_time / 1000;
      tv_usec = expire_time * 1000;
    } in
    not (later (timersub now conn_time) threshold)

-- is_connection_time_valid with an expiry of a second or more: a connection is valid for as long as
-- its whole seconds are not more than those of the expiry, so for up to a second longer.
pub is_time_valid-seconds :
    (expire_time : ℕ) (now conn_time : TimeVal)
    → 1000 ≤ expire_time
    → now.tv_usec < million
    → conn_time.tv_usec < million
    → is_time_valid expire_time now conn_time
      ≡ not (ltb (expire_time / 1000) (timersub now conn_time).tv_sec)
unfolding is_time_valid later timersub
is_time_valid-seconds expire_time now conn_time long n c = ground arith
