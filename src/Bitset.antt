-- ===== src/Bitset.antt =====
-- `std::bitset<N>`: a list of `N` bits, the lowest first, and its text, the highest bit first.
pub mod Laws
use Prim.Native.Char.{code}
use Prim.Native.String.{String}
use auto_sync_gen.Prelude.{
  ℕ, ◌-◌, Bool, true, false, ◌&&◌, not, List, [], ◌∷◌, ◌++◌, map, length, get_elem?, set, replicate,
  drop, ltb, ◌==◌, if◌then◌else◌,
}
use auto_sync_gen.Result.{Result, ok, err, ◌>>=◌, or_fault, undefined, invalid_argument}

abbrev pub Bitset : Type 0
Bitset = List Bool

abbrev pub null_bitset : ℕ → Bitset
null_bitset n = replicate n false

-- `b[i]` as a read; beyond the end it is undefined behaviour.
unfoldable pub test : Bitset → ℕ → Result Bool
test b i = or_fault (get_elem? b i) undefined

-- `b[i] = x`; beyond the end it is undefined behaviour.
unfoldable pub assign : Bitset → ℕ → Bool → Result Bitset
assign b i x = if ltb i (length b) then ok (set b i x) else err undefined

-- `~a`.
abbrev pub complement : Bitset → Bitset
complement = map not

-- `a & b`, of two bitsets of one size.
abbrev pub intersect : Bitset → Bitset → Bitset
intersect [] ys = []
intersect (x ∷ xs) [] = []
intersect (x ∷ xs) (y ∷ ys) = (x && y) ∷ intersect xs ys

text_from : Bitset → String → String
text_from [] s = s
text_from (true ∷ bs) s = text_from bs (String.◌∷◌ "1" s)
text_from (false ∷ bs) s = text_from bs (String.◌∷◌ "0" s)

-- `b.to_string()`.
unfoldable pub to_string : Bitset → String
unfolding text_from
to_string b = text_from b ""

bit_of_code : ℕ → Result Bool
bit_of_code c =
    if c == b'1' then ok true else (if c == b'0' then ok false else err invalid_argument)

bits_from : String → Bitset → Result Bitset
bits_from String.[] bs = ok bs
bits_from (String.◌∷◌ c s) bs = bit_of_code (code c) >>= λ b. bits_from s (b ∷ bs)

-- `bs` with its size changed to `n`: of a longer text the first characters count.
abbrev pub resize : ℕ → Bitset → Bitset
resize n bs = drop (length bs - n) bs ++ replicate (n - length bs) false

-- `std::bitset<n>{s}`.
unfoldable pub of_string : ℕ → String → Result Bitset
unfolding bits_from bit_of_code
of_string n s = bits_from s [] >>= λ bs. ok (resize n bs)
