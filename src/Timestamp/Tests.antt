-- ===== src/Timestamp/Tests.antt =====
-- src/util.h: class Timestamp, the theorems at concrete times.
use liby_cpp.Base.{◌≡◌, ◌↔◌, refl, true, pos, negsuc, arith, ◌+ℤ◌}
use liby_cpp.Timestamp.{Timestamp, timestamp, add, less, IsEarlier, less-instant}

abbrev early : Timestamp
early = record { tv_sec = pos 5; tv_usec = 700000 }

abbrev late : Timestamp
late = record { tv_sec = pos 9; tv_usec = 300000 }

add_carry :
    add early (record { tv_sec = pos 9; tv_usec = 400000 })
    ≡ record { tv_sec = pos 15; tv_usec = 100000 }
unfolding add timestamp ◌+ℤ◌
add_carry = refl

-- Two seconds before the epoch.
abbrev before_epoch : Timestamp
before_epoch = record { tv_sec = negsuc 1; tv_usec = 700000 }

less-instant_example : (less before_epoch early ≡ true) ↔ IsEarlier before_epoch early
less-instant_example = less-instant before_epoch early (omega arith) (omega arith)
