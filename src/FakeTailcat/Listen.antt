-- ===== src/FakeTailcat/Listen.antt =====
-- Where rust/src/bin/fake-tailcat.rs listens when rust/src/tailcat.rs launches it.
use tailcat_socks.Base.{ℕ, ◌≡◌, refl}
use tailcat_socks.Base.Bytes.{Bytes, bytes_eq}
use tailcat_socks.Tailcat.{child_listen, child_args}
use tailcat_socks.FakeTailcat.{skip_socks, strip_prefix, listen_from, listen_of}

-- The stand-in listens at the very text that the launch names.
listen_of-child_args :
    (host : Bytes) (port : ℕ) → listen_of (child_args host port) ≡ child_listen host port
unfolding listen_of child_args skip_socks listen_from strip_prefix bytes_eq
listen_of-child_args host port = refl
