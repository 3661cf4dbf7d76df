-- ===== src/IdList.antt =====
-- Vectors of identifiers (`std::vector<ID>`), and the bit of an identifier.
use auto_sync_gen.Prelude.{
  ℕ, suc, ℤ, pos, negsuc, ◌≡◌, refl, Bool, true, false, ◌||◌, ◌&&◌, not, List, [], ◌∷◌, ◌++◌,
  get_or, ltb, eqb_ℤ, eqb_ℤ_iff, ◌==◌, arith, zero, ◌<◌, ◌∙◌, length, set, if◌then◌else◌,
}
use auto_sync_gen.Bitset.{Bitset, intersect, complement}
use auto_sync_gen.Bitset.Laws.{get_or-intersect, get_or-complement}

unfoldable pub mem : ℤ → List ℤ → Bool
mem k [] = false
mem k (i ∷ is) = eqb_ℤ i k || mem k is

abbrev pub IsDistinctIds : List ℤ → Type 0
IsDistinctIds [] = Unit {0}
IsDistinctIds (i ∷ is) = (mem i is ≡ false) × IsDistinctIds is

-- No bit stands for a negative identifier.
unfoldable pub bit_at : Bitset → ℤ → Bool
bit_at b (pos i) = get_or b i false
bit_at b (negsuc i) = false

-- The identifier is below `i`.
unfoldable pub seen : ℕ → ℤ → Bool
seen i (pos j) = ltb j i
seen i (negsuc j) = false

pub mem-append : (k i : ℤ) (is : List ℤ) → mem k (is ++ i ∷ []) ≡ (mem k is || eqb_ℤ i k)
unfolding mem
mem-append k i [] = ground arith
mem-append k i (j ∷ is) = ground (arith, mem-append k i is)

pub append-IsDistinctIds :
    (i : ℤ) (is : List ℤ) → mem i is ≡ false → IsDistinctIds is → IsDistinctIds (is ++ i ∷ [])
unfolding mem
append-IsDistinctIds i [] h d = (refl, tt)
append-IsDistinctIds i (j ∷ is) h (m, d) = (
  ground (arith, mem-append j i is, eqb_ℤ_iff j i, eqb_ℤ_iff i j),
  append-IsDistinctIds i is (ground arith) d,
)

pub seen-zero : (k : ℤ) → seen 0 k ≡ false
unfolding seen
seen-zero (pos j) = ground arith
seen-zero (negsuc j) = refl

pub seen-suc : (i : ℕ) (k : ℤ) → seen (suc i) k ≡ (seen i k || eqb_ℤ (pos i) k)
unfolding seen eqb_ℤ
seen-suc i (pos j) = ground arith
seen-suc i (negsuc j) = refl

pub seen_self : (i : ℕ) → seen i (pos i) ≡ false
unfolding seen
seen_self i = ground arith

pub bit_at_pos :
    (b : Bitset) (i : ℕ) (k : ℤ) → eqb_ℤ (pos i) k ≡ true → bit_at b k ≡ get_or b i false
unfolding bit_at
bit_at_pos b i k h = rw (← (eqb_ℤ_iff (pos i) k).0 h)

get_or-set :
    (b : Bitset) (i : ℕ) (x : Bool) (j : ℕ)
    → i < length b
    → get_or (set b i x) j false ≡ (if i == j then x else get_or b j false)
get_or-set [] i x j h = elim h [ ]
get_or-set (y ∷ b) zero x zero h = refl
get_or-set (y ∷ b) zero x (suc j) h = ground arith
get_or-set (y ∷ b) (suc i) x zero h = ground arith
get_or-set (y ∷ b) (suc i) x (suc j) h = get_or-set b i x j (omega arith) ∙ ground arith

pub bit_at-set :
    (b : Bitset) (i : ℕ) (x : Bool) (k : ℤ)
    → i < length b
    → bit_at (set b i x) k ≡ (if eqb_ℤ (pos i) k then x else bit_at b k)
unfolding bit_at eqb_ℤ
bit_at-set b i x (pos j) h = get_or-set b i x j h
bit_at-set b i x (negsuc j) h = refl

-- A set bit is of an identifier below the size.
pub seen-bit_at : (b : Bitset) (k : ℤ) → bit_at b k ≡ true → seen (length b) k ≡ true
unfolding bit_at seen
seen-bit_at b (pos i) h = in_range b i h
  where
    in_range : (c : Bitset) (j : ℕ) → get_or c j false ≡ true → ltb j (length c) ≡ true
    in_range [] j e = absurd (false-ne-true e)
      where
        false-ne-true : false ≡ true → ⊥
        false-ne-true e' = cc
    in_range (x ∷ c) zero e = ground arith
    in_range (x ∷ c) (suc j) e = ground (arith, in_range c j e)
seen-bit_at b (negsuc i) h = cc

pub bit_at-intersect :
    (a b : Bitset) (k : ℤ) → bit_at (intersect a b) k ≡ (bit_at a k && bit_at b k)
unfolding bit_at
bit_at-intersect a b (pos i) = get_or-intersect a b i
bit_at-intersect a b (negsuc i) = refl

pub bit_at-complement :
    (b : Bitset) (k : ℤ) → seen (length b) k ≡ true → bit_at (complement b) k ≡ not (bit_at b k)
unfolding bit_at seen
bit_at-complement b (pos i) h = get_or-complement b i (ground arith)
bit_at-complement b (negsuc i) h = cc
