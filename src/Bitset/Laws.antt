-- ===== src/Bitset/Laws.antt =====
-- What the bits of a computed bitset are, and that a bitset is read back from its text.
use Prim.Native.String.{String}
use auto_sync_gen.Prelude.{
  ℕ, zero, suc, ◌-◌, ◌<◌, ◌≤◌, ◌≡◌, refl, Bool, true, false, ◌&&◌, not, [], ◌∷◌, ◌++◌, length,
  get_or, get_elem?-get_or, get_or-replicate, set, replicate, ◌+◌, length-replicate, arith,
}
use mathlib.Core.List.{append-nil}
use auto_sync_gen.Result.{ok}
use auto_sync_gen.Bitset.{
  Bitset, test, assign, complement, intersect, to_string, text_from, bits_from, bit_of_code,
  of_string,
}

pub test_lem : (b : Bitset) (i : ℕ) → i < length b → test b i ≡ ok (get_or b i false)
unfolding test
test_lem b i h = rw (get_elem?-get_or b i false h)

pub assign_lem : (b : Bitset) (i : ℕ) (x : Bool) → i < length b → assign b i x ≡ ok (set b i x)
unfolding assign
assign_lem b i x h = ground arith

pub length-complement : (b : Bitset) → length (complement b) ≡ length b
length-complement [] = refl
length-complement (x ∷ b) = omega (arith, length-complement b)

pub length-intersect : (a b : Bitset) → length a ≡ length b → length (intersect a b) ≡ length a
length-intersect [] b h = refl
length-intersect (x ∷ a) [] h = omega arith
length-intersect (x ∷ a) (y ∷ b) h = omega (arith, length-intersect a b)

pub get_or-complement :
    (b : Bitset) (i : ℕ) → i < length b → get_or (complement b) i false ≡ not (get_or b i false)
get_or-complement [] i h = elim h [ ]
get_or-complement (x ∷ b) zero h = refl
get_or-complement (x ∷ b) (suc i) h = get_or-complement b i (omega arith)

pub get_or-intersect :
    (a b : Bitset) (i : ℕ) → get_or (intersect a b) i false ≡ (get_or a i false && get_or b i false)
get_or-intersect [] b i = refl
get_or-intersect (x ∷ a) [] zero = ground arith
get_or-intersect (x ∷ a) [] (suc i) = ground arith
get_or-intersect (x ∷ a) (y ∷ b) zero = refl
get_or-intersect (x ∷ a) (y ∷ b) (suc i) = get_or-intersect a b i

bits-text :
    (b : Bitset) (s : String) (a : Bitset) → bits_from (text_from b s) a ≡ bits_from s (b ++ a)
unfolding text_from bits_from bit_of_code
bits-text [] s a = refl
bits-text (true ∷ b) s a = bits-text b (String.◌∷◌ "1" s) a
bits-text (false ∷ b) s a = bits-text b (String.◌∷◌ "0" s) a

get_or-pad : (b : Bitset) (n i : ℕ) → get_or (b ++ replicate n false) i false ≡ get_or b i false
get_or-pad [] n i = get_or-replicate n i false
get_or-pad (x ∷ b) n zero = refl
get_or-pad (x ∷ b) n (suc i) = get_or-pad b n i

-- A text that fits is read back, with the higher bits clear.
pub of_string-to_string :
    (n : ℕ) (b : Bitset)
    → length b ≤ n
    → of_string n (to_string b) ≡ ok (b ++ replicate (n - length b) false)
unfolding of_string to_string
of_string-to_string n b h =
    let fits : length b - n ≡ zero = omega arith in rw (bits-text b "" [], append-nil b, fits) refl

pub get_or-of_string :
    (n : ℕ) (b : Bitset) (i : ℕ)
    → get_or (b ++ replicate (n - length b) false) i false ≡ get_or b i false
get_or-of_string n b i = get_or-pad b (n - length b) i

length-pad : (b : Bitset) (k : ℕ) → length (b ++ replicate k false) ≡ length b + k
length-pad [] k = omega (arith, length-replicate k false)
length-pad (x ∷ b) k = omega (arith, length-pad b k)

pub length-of_string :
    (n : ℕ) (b : Bitset) → length b ≤ n → length (b ++ replicate (n - length b) false) ≡ n
length-of_string n b h = omega (arith, length-pad b (n - length b))
