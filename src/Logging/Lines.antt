-- ===== src/Logging/Lines.antt =====
-- What a reader of the log of rust/src/logging.rs finds, line by line.
use tailcat_socks.Base.{
  ℕ, ◌≤◌, ◌≡◌, refl, sym, ap, ◌∙◌, false, true, Bool, not, ◌&&◌, List, [], ◌∷◌, ◌++◌, map, arith,
  length, length-append, append_assoc, append-nil, All, All-append,
}
use tailcat_socks.Base.Bytes.{Bytes, codes, split, split-append, split_whole}
use tailcat_socks.Text.Decimal.{show_dec, IsDigits, show_dec-IsDigits}
use tailcat_socks.Error.{IoError, ParseIntError, ConfigError, read}
use tailcat_socks.Net.{Socket, returned}
use tailcat_socks.Net.Laws.{write_all_fits}
use tailcat_socks.Dns.Parse.{is_newline}
use tailcat_socks.Proxy.Handshake.{send}
use tailcat_socks.Main.{
  Line, cannot_load, bad_listen, bad_upstream, cannot_listen, launch_failed, not_ready, launched,
  listening, mapped, upstream, server_error,
}
use tailcat_socks.Logging.{
  unheeded, log_prefix, log_line, log_all, Texts, config_error_text, dns_error_text, line_text,
  joined,
}

-- There is no line break in a text.
abbrev pub IsOneLine : Bytes → Type 0
IsOneLine = All (λ c. is_newline c ≡ false)

digits-IsOneLine : (s : Bytes) → IsDigits s → IsOneLine s
digits-IsOneLine [] h = tt
digits-IsOneLine (c ∷ s) h = (ground (arith, h.0), digits-IsOneLine s h.1)

pub show_dec-IsOneLine : (n : ℕ) → IsOneLine (show_dec n)
show_dec-IsOneLine n = digits-IsOneLine (show_dec n) (show_dec-IsDigits n)

-- What the standard library writes has no line break.
pub record AreOneLine (t : Texts) : Type 0 where
  pub io_line : (e : IoError) → IsOneLine (t.io_text e)
  pub int_line : (e : ParseIntError) → IsOneLine (t.int_text e)
  pub debug_line : (s : Bytes) → IsOneLine (t.debug s)

-- The texts in a line that come from the flags and the file system have none.
unfoldable pub IsPlainLine : Line → Type 0
IsPlainLine (cannot_load (read path e)) = IsOneLine path
IsPlainLine (cannot_listen listen e) = IsOneLine listen
IsPlainLine (launch_failed bin e) = IsOneLine bin
IsPlainLine (not_ready up_addr) = IsOneLine up_addr
IsPlainLine (launched bin up_addr) = IsOneLine bin × IsOneLine up_addr
IsPlainLine (listening actual) = IsOneLine actual
IsPlainLine (upstream up_addr) = IsOneLine up_addr
IsPlainLine _ = Unit

joined-IsOneLine : (pieces : List Bytes) → All IsOneLine pieces → IsOneLine (joined pieces)
unfolding joined
joined-IsOneLine [] h = tt
joined-IsOneLine (piece ∷ pieces) h =
    All-append _ piece (joined pieces) h.0 (joined-IsOneLine pieces h.1)

is_plain : Bytes → Bool
is_plain [] = true
is_plain (c ∷ s) = not (is_newline c) && is_plain s

-- A literal's bytes are looked at.
literal : (s : Bytes) → is_plain s ≡ true → IsOneLine s
unfolding is_plain
literal [] h = tt
literal (c ∷ s) h = (ground (arith, h), literal s (ground (arith, h)))

config_error_text-IsOneLine :
    (t : Texts) (e : ConfigError) → AreOneLine t → IsOneLine (config_error_text t e)
unfolding config_error_text is_plain
config_error_text-IsOneLine t e h = joined-IsOneLine (_ ∷ _ ∷ _ ∷ _ ∷ []) (
  literal (codes "bad addr ") refl,
  (h.debug_line e.addr, (literal (codes ": ") refl, (h.int_line e.source, tt))),
)

unfoldable pub framed : List Bytes → Bytes
framed [] = []
framed (msg ∷ msgs) = ((log_prefix ++ msg) ++ 10 ∷ []) ++ framed msgs

log_all_written :
    (msgs : List Bytes) (s : Socket)
    → length (framed msgs) ≤ s.room
    → ((log_all msgs s).0 ≡ returned tt) × ((log_all msgs s).1.sent ≡ s.sent ++ framed msgs)
unfolding log_all framed
log_all_written [] s room = (refl, sym (append-nil s.sent))
log_all_written (msg ∷ msgs) s room =
    let line = (log_prefix ++ msg) ++ 10 ∷ [] in
    let split_room = length-append line (framed msgs) in
    let (over, sent) = log_all_written msgs (send line s) (omega arith) in
    let written : log_line msg s ≡ (returned tt, send line s) =
      unfold log_line unheeded in rw (write_all_fits line s (omega arith)) in
    rw written (over, sent ∙ append_assoc s.sent line (framed msgs))

dns_error_text-IsOneLine :
    (t : Texts) (path : Bytes) (e : IoError)
    → AreOneLine t
    → IsOneLine path
    → IsOneLine (dns_error_text t (read path e))
unfolding dns_error_text is_plain
dns_error_text-IsOneLine t path e h k =
    joined-IsOneLine (_ ∷ _ ∷ _ ∷ _ ∷ [])
      (literal (codes "cannot load ") refl, (k, (literal (codes ": ") refl, (h.io_line e, tt))))

-- A line that the program logs is one line.
line_text-IsOneLine :
    (t : Texts) (line : Line) → AreOneLine t → IsPlainLine line → IsOneLine (line_text t line)
unfolding line_text IsPlainLine is_plain
line_text-IsOneLine t (cannot_load (read path e)) h k = dns_error_text-IsOneLine t path e h k
line_text-IsOneLine t (bad_listen e) h k =
    joined-IsOneLine (_ ∷ _ ∷ [])
      (literal (codes "bad --listen: ") refl, (config_error_text-IsOneLine t e h, tt))
line_text-IsOneLine t (bad_upstream e) h k =
    joined-IsOneLine (_ ∷ _ ∷ [])
      (literal (codes "bad --upstream: ") refl, (config_error_text-IsOneLine t e h, tt))
line_text-IsOneLine t (cannot_listen listen e) h k =
    joined-IsOneLine (_ ∷ _ ∷ _ ∷ _ ∷ []) (
      literal (codes "cannot listen on ") refl,
      (k, (literal (codes ": ") refl, (h.io_line e, tt))),
    )
line_text-IsOneLine t (launch_failed bin e) h k =
    joined-IsOneLine (_ ∷ _ ∷ _ ∷ _ ∷ []) (
      literal (codes "failed to launch ") refl,
      (k, (literal (codes ": ") refl, (h.io_line e, tt))),
    )
line_text-IsOneLine t (not_ready up_addr) h k =
    joined-IsOneLine (_ ∷ _ ∷ _ ∷ [])
      (literal (codes "upstream ") refl, (k, (literal (codes " not ready; aborting") refl, tt)))
line_text-IsOneLine t (launched bin up_addr) h k =
    joined-IsOneLine (_ ∷ _ ∷ _ ∷ _ ∷ [])
      (literal (codes "auto-launched ") refl, (k.0, (literal (codes " socks on ") refl, (k.1, tt))))
line_text-IsOneLine t (listening actual) h k =
    joined-IsOneLine (_ ∷ _ ∷ []) (literal (codes "listening socks5h://") refl, (k, tt))
line_text-IsOneLine t (mapped domains tokens) h k = joined-IsOneLine (_ ∷ _ ∷ _ ∷ _ ∷ []) (
  show_dec-IsOneLine domains,
  (
    literal (codes " domain(s) mapped -> ") refl,
    (show_dec-IsOneLine tokens, (literal (codes " token(s)") refl, tt)),
  ),
)
line_text-IsOneLine t (upstream up_addr) h k =
    joined-IsOneLine (_ ∷ _ ∷ []) (literal (codes "upstream ") refl, (k, tt))
line_text-IsOneLine t (server_error e) h k =
    joined-IsOneLine (_ ∷ _ ∷ []) (literal (codes "server error: ") refl, (h.io_line e, tt))

split-framed :
    (msgs : List Bytes)
    → All IsOneLine msgs
    → split is_newline (framed msgs) ≡ map (λ msg. log_prefix ++ msg) msgs ++ [] ∷ []
unfolding framed is_plain
split-framed [] h = unfold split in refl
split-framed (msg ∷ msgs) h =
    let line = log_prefix ++ msg in
    let whole : IsOneLine line = All-append _ log_prefix msg (literal log_prefix refl) h.0 in
    rw (
      append_assoc line (10 ∷ []) (framed msgs),
      split-append is_newline line (framed msgs) 10 refl,
      split_whole is_newline line whole,
      split-framed msgs h.1,
    )

lines_plain :
    (t : Texts) (lines : List Line)
    → AreOneLine t
    → All IsPlainLine lines
    → All IsOneLine (map (line_text t) lines)
lines_plain t [] h k = tt
lines_plain t (line ∷ lines) h k = (line_text-IsOneLine t line h k.0, lines_plain t lines h k.1)

texts-prefixed :
    (t : Texts) (lines : List Line)
    → map (λ msg. log_prefix ++ msg) (map (line_text t) lines)
      ≡ map (λ line. log_prefix ++ line_text t line) lines
texts-prefixed t [] = refl
texts-prefixed t (line ∷ lines) =
    ap (λ rest. (log_prefix ++ line_text t line) ∷ rest) (texts-prefixed t lines)

-- The lines of a run, written to a standard error that has room for them, where neither the flags nor the
-- standard library's texts have a line break: every write returns, and cut at the line breaks, what stands
-- there is one line for each that was logged, in order, behind its prefix.
pub log_all-split :
    (t : Texts) (lines : List Line) (s : Socket)
    → AreOneLine t
    → All IsPlainLine lines
    → length (framed (map (line_text t) lines)) ≤ s.room
    → s.sent ≡ []
    → ((log_all (map (line_text t) lines) s).0 ≡ returned tt)
      × (split is_newline (log_all (map (line_text t) lines) s).1.sent
          ≡ map (λ line. log_prefix ++ line_text t line) lines ++ [] ∷ [])
log_all-split t lines s h k room fresh =
    let (over, sent) = log_all_written (map (line_text t) lines) s room in
    (
      over,
      ap (split is_newline)
            (sent ∙ ap (λ (xs : Bytes). xs ++ framed (map (line_text t) lines)) fresh)
          ∙ split-framed (map (line_text t) lines) (lines_plain t lines h k)
          ∙ ap (λ parts. parts ++ [] ∷ []) (texts-prefixed t lines),
    )
