-- ===== src/Stream/Grammar.antt =====
-- The integers of the WebAssembly binary format, as its specification writes the grammar: `uN` and
-- `sN` read one byte, and where its top bit is set go on with `N - 7` bits. A result holds the
-- number and how many bytes it takes; a signed number is its two's complement pattern on N bits.
use silverfir.Prelude.{
  ℕ, suc, ◌+◌, ◌-◌, ◌*◌, ◌^◌, List, [], ◌∷◌, Option, none, some, ltb, leb, if◌then◌else◌,
}

abbrev pub prepend : ℕ → Option (ℕ × ℕ) → Option (ℕ × ℕ)
prepend b none = none
prepend b (some (m, k)) = some (128 * m + (b - 128), suc k)

unfoldable pub unsigned : ℕ → List ℕ → Option (ℕ × ℕ)
unsigned n [] = none
unsigned n (b ∷ bs) =
    let longer = prepend b (unsigned (n - 7) bs) in
    if ltb b 128
    then if ltb b (2 ^ n) then some (b, 1) else none
    else if ltb 7 n
    then longer
    else none

unfoldable pub signed : ℕ → List ℕ → Option (ℕ × ℕ)
signed n [] = none
signed n (b ∷ bs) =
    let longer = prepend b (signed (n - 7) bs) in
    if ltb b 64
    then if ltb b (2 ^ (n - 1)) then some (b, 1) else none
    else if ltb b 128
    then if leb 128 (b + 2 ^ (n - 1)) then some (b + 2 ^ n - 128, 1) else none
    else if ltb 7 n
    then longer
    else none
