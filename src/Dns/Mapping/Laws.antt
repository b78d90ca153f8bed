-- ===== src/Dns/Mapping/Laws.antt =====
-- What a lookup finds after an insertion, the shape of a map, and the size of its token set.
use tailcat_socks.Base.{
  ◌≤◌, ◌≡◌, refl, sym, ◌≢◌, inl, inr, false, List, [], ◌∷◌, some, map, arith, if◌then◌else◌,
  Bool-cases, length, All,
}
use tailcat_socks.Base.Bytes.{Bytes, bytes_eq, bytes_eq_iff, bytes_eq-ne}
use tailcat_socks.Dns.Mapping.{Mapping, get, insert, contains, token_set, len}

pub get-insert :
    (d e t : Bytes) (m : Mapping)
    → get e (insert d t m) ≡ (if bytes_eq d e then some t else get e m)
unfolding get insert
get-insert d e t [] = refl
get-insert d e t ((k, v) ∷ m) =
    ground (arith, bytes_eq_iff k d, bytes_eq_iff k e, bytes_eq_iff d e, get-insert d e t m)

-- No entry of `m` has the key `d`.
abbrev pub Absent : Bytes → Mapping → Type 0
Absent d m = All (λ (e : Bytes × Bytes). e.0 ≢ d) m

-- No two entries have one key.
abbrev pub IsMap : Mapping → Type 0
IsMap [] = Unit
IsMap ((k, v) ∷ m) = Absent k m × IsMap m

insert-Absent : (d t k : Bytes) (m : Mapping) → d ≢ k → Absent k m → Absent k (insert d t m)
unfolding insert
insert-Absent d t k [] ne h = (ne, tt)
insert-Absent d t k ((j, v) ∷ m) ne h = ground (arith, insert-Absent d t k m ne h.1)

-- An insertion keeps the keys distinct.
pub insert-IsMap : (d t : Bytes) (m : Mapping) → IsMap m → IsMap (insert d t m)
unfolding insert
insert-IsMap d t [] h = (tt, tt)
insert-IsMap d t ((k, v) ∷ m) h = elim (Bool-cases (bytes_eq k d)) [
  | inl same ↦ rw same h
  | inr other ↦
      rw other
        (insert-Absent d t k m (λ e. bytes_eq-ne k d other (sym e)) h.0, insert-IsMap d t m h.1)
]

-- A predicate on entries survives an insertion of an entry that has it with the same key.
pub insert-All :
    (P : Bytes × Bytes → Type 0) (d t : Bytes) (m : Mapping)
    → P (d, t)
    → All P m
    → All P (insert d t m)
unfolding insert
insert-All P d t [] p h = (p, tt)
insert-All P d t ((k, v) ∷ m) p h = elim (Bool-cases (bytes_eq k d)) [
  | inl same ↦ rw (same, (bytes_eq_iff k d).0 same) (p, h.1)
  | inr other ↦ rw other (h.0, insert-All P d t m p h.1)
]

-- The token set holds the tokens of the entries, and no others.
pub contains-token_set :
    (t : Bytes) (m : Mapping)
    → contains t (token_set m) ≡ contains t (map (λ (e : Bytes × Bytes). e.1) m)
unfolding contains token_set
contains-token_set t [] = refl
contains-token_set t ((k, v) ∷ m) =
    ground (arith, contains-token_set t m, contains-token_set v m, bytes_eq_iff v t)

-- The elements of a list are distinct.
abbrev pub IsDistinct : List Bytes → Type 0
IsDistinct [] = Unit
IsDistinct (x ∷ xs) = (contains x xs ≡ false) × IsDistinct xs

-- The token set lists each token once.
pub token_set-IsDistinct : (m : Mapping) → IsDistinct (token_set m)
unfolding token_set
token_set-IsDistinct [] = tt
token_set-IsDistinct ((k, v) ∷ m) = ground (arith, token_set-IsDistinct m)

-- There are no more tokens than domains.
pub length-token_set-le : (m : Mapping) → length (token_set m) ≤ len m
unfolding token_set
length-token_set-le [] = omega arith
length-token_set-le ((k, v) ∷ m) = ground (arith, length-token_set-le m)
