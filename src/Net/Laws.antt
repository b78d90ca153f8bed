-- ===== src/Net/Laws.antt =====
-- Reads and writes on a connection whose peer does its part.
use tailcat_socks.Base.{
  ◌-◌, ◌≤◌, ◌≡◌, true, ◌++◌, arith, leb, length, length-append, take-append, drop-append,
}
use tailcat_socks.Base.Bytes.{Bytes}
use tailcat_socks.Net.{Socket, returned, read_exact, write_all}

leb-length : (xs ys : Bytes) → leb (length xs) (length (xs ++ ys)) ≡ true
leb-length xs ys = ground (arith, length-append xs ys)

-- The bytes that stand first are read, and no more.
pub read_exact-append :
    (xs ys : Bytes) (s : Socket)
    → read_exact (length xs) (record s { inbox = xs ++ ys })
      ≡ (returned xs, record s { inbox = ys })
unfolding read_exact
read_exact-append xs ys s = rw (leb-length xs ys, take-append xs ys, drop-append xs ys)

-- What fits is written whole.
pub write_all_fits :
    (bytes : Bytes) (s : Socket)
    → length bytes ≤ s.room
    → write_all bytes s
      ≡ (returned tt, record s { sent = s.sent ++ bytes; room = s.room - length bytes })
unfolding write_all
write_all_fits bytes s h = ground arith
