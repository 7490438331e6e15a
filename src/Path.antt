-- ===== src/Path.antt =====
-- std::path, up to the equality of PathBuf: a path is the list of its components. Text and names are
-- their bytes, as in memory; a name need not be UTF-8.
pub mod Equality
pub mod Order
pub mod Lossy
pub mod Parse
use Prim.Native.Char.{code}
use Prim.Native.String.{String}
use net_device_mapping.Prelude.{
  ℕ, Bool, true, false, ◌&&◌, List, [], ◌∷◌, ◌++◌, Option, none, some, ◌<◌, ◌≡◌, refl, arith, ltb,
  leb, if◌then◌else◌,
}

-- The bytes of a text.
abbrev pub Str : Type 0
Str = List ℕ

abbrev pub OsString : Type 0
OsString = List ℕ

-- The bytes of an ASCII literal.
abbrev pub codes : String → Str
codes String.[] = []
codes (String.◌∷◌ c s) = code c ∷ codes s

-- The pieces of a format string.
abbrev pub concat : List Str → Str
concat [] = []
concat (text ∷ texts) = text ++ concat texts

-- The ranges of the bytes that must follow a first byte in UTF-8; `none` if no character begins so.
abbrev tail_byte : ℕ × ℕ
tail_byte = (0x80, 0xbf)

followers : ℕ → Option (List (ℕ × ℕ))
followers b =
    if ltb b 0x80
    then some []
    else if ltb b 0xc2
    then none
    else if ltb b 0xe0
    then some (tail_byte ∷ [])
    else if ltb b 0xe1
    then some ((0xa0, 0xbf) ∷ tail_byte ∷ [])
    else if ltb b 0xed
    then some (tail_byte ∷ tail_byte ∷ [])
    else if ltb b 0xee
    then some ((0x80, 0x9f) ∷ tail_byte ∷ [])
    else if ltb b 0xf0
    then some (tail_byte ∷ tail_byte ∷ [])
    else if ltb b 0xf1
    then some ((0x90, 0xbf) ∷ tail_byte ∷ tail_byte ∷ [])
    else if ltb b 0xf4
    then some (tail_byte ∷ tail_byte ∷ tail_byte ∷ [])
    else if ltb b 0xf5
    then some ((0x80, 0x8f) ∷ tail_byte ∷ tail_byte ∷ [])
    else none

begin_char : Option (List (ℕ × ℕ)) → (List (ℕ × ℕ) → Bool) → Bool
begin_char none rest = false
begin_char (some ranges) rest = rest ranges

-- Whether bytes are UTF-8, where bytes in these ranges are due first.
utf8_after : List ℕ → List (ℕ × ℕ) → Bool
unfolding followers begin_char
utf8_after [] [] = true
utf8_after [] (_ ∷ _) = false
utf8_after (b ∷ s) [] = begin_char (followers b) (utf8_after s)
utf8_after (b ∷ s) ((lo, hi) ∷ due) = leb lo b && leb b hi && utf8_after s due

unfoldable pub is_utf8 : List ℕ → Bool
unfolding utf8_after
is_utf8 s = utf8_after s []

-- `OsStr::to_str`.
abbrev pub to_str : OsString → Option Str
to_str name = if is_utf8 name then some name else none

pub data Component : Type 0 where
  root_dir cur_dir parent_dir : Component
  normal : OsString → Component

abbrev pub PathBuf : Type 0
PathBuf = List Component

-- On Unix a path is absolute when it has a root.
unfoldable pub is_absolute : PathBuf → Bool
is_absolute (root_dir ∷ p) = true
is_absolute p = false

-- `join` with a name that is neither empty nor holds a `/`.
unfoldable pub join : PathBuf → Str → PathBuf
join p name = p ++ normal name ∷ []

abbrev pub IsAscii : Str → Type 0
IsAscii [] = Unit
IsAscii (b ∷ s) = (b < 0x80) × IsAscii s

pub IsAscii-is_utf8 : (s : Str) → IsAscii s → is_utf8 s ≡ true
unfolding is_utf8
IsAscii-is_utf8 [] h = refl
IsAscii-is_utf8 (b ∷ s) (small, h) = ground (arith, IsAscii-is_utf8 s h)
