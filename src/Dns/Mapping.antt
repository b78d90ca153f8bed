-- ===== src/Dns/Mapping.antt =====
-- `Mapping` of rust/src/dnsmap.rs: a `HashMap` from a domain's bytes to a token's bytes, kept here as
-- an association list with at most one entry for a key.
pub mod Laws
use tailcat_socks.Base.{
  Bool, true, false, ◌||◌, ℕ, List, [], ◌∷◌, Option, none, some, if◌then◌else◌, length,
}
use tailcat_socks.Base.Bytes.{Bytes, bytes_eq}

abbrev pub Mapping : Type 0
Mapping = List (Bytes × Bytes)

-- `HashMap::get`
unfoldable pub get : Bytes → Mapping → Option Bytes
get d [] = none
get d ((k, v) ∷ m) = if bytes_eq k d then some v else get d m

-- `HashMap::insert`: the value of a key that is there is replaced.
unfoldable pub insert : Bytes → Bytes → Mapping → Mapping
insert d t [] = (d, t) ∷ []
insert d t ((k, v) ∷ m) = if bytes_eq k d then (k, t) ∷ m else (k, v) ∷ insert d t m

-- `HashSet::contains`
unfoldable pub contains : Bytes → List Bytes → Bool
contains x [] = false
contains x (y ∷ ys) = bytes_eq y x || contains x ys

-- `m.values().collect::<HashSet<_>>()`: the distinct tokens.
unfoldable pub token_set : Mapping → List Bytes
unfolding contains
token_set [] = []
token_set ((k, v) ∷ m) = let rest = token_set m in if contains v rest then rest else v ∷ rest

-- `HashMap::len`
abbrev pub len : Mapping → ℕ
len = length
