-- ===== src/Proxy/Wire.antt =====
-- Addresses as `read_atyp_addr` of rust/src/proxy.rs meets them on the wire.
use tailcat_socks.Base.{ℕ, ◌≡◌, sym, [], ◌∷◌, ◌++◌, length}
use tailcat_socks.Base.Bytes.{Bytes}
use tailcat_socks.Net.{Socket, returned, read_exact}
use tailcat_socks.Net.Laws.{read_exact-append}
use tailcat_socks.Text.Ip.{show_v4}
use tailcat_socks.Text.Ipv6.{show_v6}
use tailcat_socks.Proxy.Address.{v4_of, v6_of, read_atyp_addr}

-- `bytes` stand for the address `host` of type `atyp`.
pub data Wire : ℕ → Bytes → Bytes → Type 0 where
  ipv4 : (b : Bytes) → length b ≡ 4 → Wire 1 b (show_v4 (v4_of b))
  name : (l : ℕ) (host : Bytes) → l ≡ length host → Wire 3 (l ∷ host) host
  ipv6 : (b : Bytes) → length b ≡ 16 → Wire 4 b (show_v6 (v6_of b))

-- A read of as many bytes as stand first.
pub read_exact_len :
    (n : ℕ) (xs ys : Bytes) (s : Socket)
    → length xs ≡ n
    → read_exact n (record s { inbox = xs ++ ys }) ≡ (returned xs, record s { inbox = ys })
read_exact_len n xs ys s e = rw (← e) (read_exact-append xs ys s)

-- An address is read to its last byte and no further.
pub read_atyp_addr-Wire :
    {atyp : ℕ} {bytes host : Bytes} (rest : Bytes) (s : Socket)
    → Wire atyp bytes host
    → read_atyp_addr atyp (record s { inbox = bytes ++ rest })
      ≡ (returned host, record s { inbox = rest })
unfolding read_atyp_addr
read_atyp_addr-Wire rest s (ipv4 b e) = rw (read_exact_len 4 b rest s e)
read_atyp_addr-Wire rest s (name l host e) =
    rw (read_exact-append (l ∷ []) (host ++ rest) s) (read_exact_len l host rest s (sym e))
read_atyp_addr-Wire rest s (ipv6 b e) = rw (read_exact_len 16 b rest s e)
