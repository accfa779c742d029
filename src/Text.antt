-- ===== src/Text.antt =====
-- `&str` and `String`, as the list of their UTF-8 bytes, with the methods of the standard library
-- that the node calls: comparison, `trim`, `to_lowercase`, and the parsing and the printing of
-- numbers (wallet.rs, lightning/ldk_service.rs).
pub mod Number
pub mod Equality
use Prim.Native.Char.{code}
use dln_node_knots.Prelude.{
  ℕ, ◌+◌, String, Bool, true, false, ◌&&◌, ◌||◌, List, [], ◌∷◌, ◌++◌, leb, ◌==◌, if◌then◌else◌, map,
  reverse,
}

abbrev pub Bytes : Type 0
Bytes = List ℕ

abbrev pub Text : Type 0
Text = Bytes

-- The bytes of an ASCII literal.
unfoldable pub codes : String → Text
codes String.[] = []
codes (String.◌∷◌ c s) = code c ∷ codes s

unfoldable pub text_eq : Text → Text → Bool
text_eq [] [] = true
text_eq [] (b ∷ t) = false
text_eq (a ∷ s) [] = false
text_eq (a ∷ s) (b ∷ t) = a == b && text_eq s t

abbrev pub is_empty : Text → Bool
is_empty [] = true
is_empty (b ∷ s) = false

-- A byte 0x80..0xbf continues a character: no `&str` starts or ends before it.
unfoldable pub is_continuation : ℕ → Bool
is_continuation b = leb 0x80 b && leb b 0xbf

-- White space of one byte (`\t` to `\r`, and the blank), of two (U+0085, U+00A0) and of three
-- (U+1680, U+2000 to U+200A, U+2028, U+2029, U+202F, U+205F, U+3000).
is_space1 : ℕ → Bool
is_space1 a = (leb 0x09 a && leb a 0x0d) || a == 0x20

is_space2 : ℕ → ℕ → Bool
is_space2 a b = a == 0xc2 && (b == 0x85 || b == 0xa0)

is_space3 : ℕ → ℕ → ℕ → Bool
is_space3 a b c =
    (a == 0xe1 && b == 0x9a && c == 0x80)
    || (a == 0xe2
        && b == 0x80
        && ((leb 0x80 c && leb c 0x8a) || c == 0xa8 || c == 0xa9 || c == 0xaf))
    || (a == 0xe2 && b == 0x81 && c == 0x9f)
    || (a == 0xe3 && b == 0x80 && c == 0x80)

unfoldable pub trim_start : Text → Text
unfolding is_space1 is_space2 is_space3
trim_start [] = []
trim_start (a ∷ []) = if is_space1 a then [] else a ∷ []
trim_start (a ∷ b ∷ []) =
    let rest = trim_start (b ∷ []) in
    if is_space1 a then rest else if is_space2 a b then [] else a ∷ b ∷ []
trim_start (a ∷ b ∷ c ∷ s) =
    let rest1 = trim_start (b ∷ c ∷ s) in
    let rest2 = trim_start (c ∷ s) in
    let rest3 = trim_start s in
    if is_space1 a
    then rest1
    else if is_space2 a b
    then rest2
    else if is_space3 a b c
    then rest3
    else a ∷ b ∷ c ∷ s

-- The same from the end, over the reversed bytes.
unfoldable pub trim_back : Text → Text
unfolding is_space1 is_space2 is_space3
trim_back [] = []
trim_back (a ∷ []) = if is_space1 a then [] else a ∷ []
trim_back (a ∷ b ∷ []) =
    let rest = trim_back (b ∷ []) in
    if is_space1 a then rest else if is_space2 b a then [] else a ∷ b ∷ []
trim_back (a ∷ b ∷ c ∷ s) =
    let rest1 = trim_back (b ∷ c ∷ s) in
    let rest2 = trim_back (c ∷ s) in
    let rest3 = trim_back s in
    if is_space1 a
    then rest1
    else if is_space2 b a
    then rest2
    else if is_space3 c b a
    then rest3
    else a ∷ b ∷ c ∷ s

unfoldable pub trim : Text → Text
unfolding trim_start trim_back
trim s = reverse (trim_back (reverse (trim_start s)))

-- ASCII letters only: a letter outside ASCII stays as it is.
unfoldable pub to_lowercase : Text → Text
to_lowercase = map (λ c. if leb b'A' c && leb c b'Z' then c + 32 else c)
