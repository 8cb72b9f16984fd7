-- ===== src/Text.antt =====
-- Go strings as sequences of bytes, and what the middlewares use of the package `strings`. Letters
-- and white space are those of ASCII: header values, methods and hosts.
pub mod Laws
use Prim.Native.Char.{code}
use Prim.Native.String.{String}
use zerohttp.Prelude.{
  ℕ, ◌+◌, ◌-◌, Bool, true, false, ◌&&◌, ◌||◌, List, [], ◌∷◌, ◌++◌, map, Option, none, some, ltb,
  leb, nat_beq, if◌then◌else◌, length, drop,
}

abbrev pub Text : Type 0
Text = List ℕ

-- The bytes of an ASCII literal.
abbrev pub codes : String → Text
codes String.[] = []
codes (String.◌∷◌ c s) = code c ∷ codes s

unfoldable pub text_eq : Text → Text → Bool
text_eq [] [] = true
text_eq (a ∷ s) (b ∷ t) = nat_beq a b && text_eq s t
text_eq _ _ = false

-- `s < t`: the bytewise order.
unfoldable pub text_lt : Text → Text → Bool
text_lt [] [] = false
text_lt [] (b ∷ t) = true
text_lt (a ∷ s) [] = false
text_lt (a ∷ s) (b ∷ t) = ltb a b || (nat_beq a b && text_lt s t)

unfoldable pub has_prefix : Text → Text → Bool
has_prefix s [] = true
has_prefix [] (p ∷ ps) = false
has_prefix (a ∷ s) (p ∷ ps) = nat_beq a p && has_prefix s ps

abbrev pub take : ℕ → Text → Text
take ℕ.zero s = []
take (ℕ.suc n) [] = []
take (ℕ.suc n) (a ∷ s) = a ∷ take n s

unfoldable pub has_suffix : Text → Text → Bool
unfolding text_eq
has_suffix s t = leb (length t) (length s) && text_eq (drop (length s - length t) s) t

-- `strings.CutSuffix`: the text before the suffix, if the suffix is there.
unfoldable pub cut_suffix : Text → Text → Option Text
unfolding has_suffix
cut_suffix s t = if has_suffix s t then some (take (length s - length t) s) else none

unfoldable pub trim_suffix : Text → Text → Text
unfolding has_suffix
trim_suffix s t = if has_suffix s t then take (length s - length t) s else s

unfoldable pub to_lower : Text → Text
to_lower = map (λ c. if leb b'A' c && leb c b'Z' then c + 32 else c)

unfoldable pub to_upper : Text → Text
to_upper = map (λ c. if leb b'a' c && leb c b'z' then c - 32 else c)

-- `strings.Split` on one byte.
unfoldable pub split_from : Text → ℕ → Text → List Text
split_from cur sep [] = cur ∷ []
split_from cur sep (c ∷ s) =
    let closed = cur ∷ split_from [] sep s in
    let longer = split_from (cur ++ c ∷ []) sep s in if nat_beq c sep then closed else longer

unfoldable pub split : Text → ℕ → List Text
unfolding split_from
split s sep = split_from [] sep s

-- `strings.Cut` on one byte, of which only the text before the separator is used.
unfoldable pub before : Text → ℕ → Text
before [] sep = []
before (c ∷ s) sep = if nat_beq c sep then [] else c ∷ before s sep

abbrev pub is_space : ℕ → Bool
is_space c = nat_beq c 32 || (leb 9 c && leb c 13)

unfoldable pub trim_left : Text → Text
trim_left [] = []
trim_left (c ∷ s) = let rest = trim_left s in if is_space c then rest else c ∷ s

unfoldable pub trim_right : Text → Text
trim_right [] = []
trim_right (c ∷ s) = elim (trim_right s) [
  | [] ↦ if is_space c then [] else c ∷ []
  | d ∷ rest ↦ c ∷ d ∷ rest
]

unfoldable pub trim_space : Text → Text
unfolding trim_left trim_right
trim_space s = trim_right (trim_left s)

-- `strings.Join`.
unfoldable pub join : List Text → Text → Text
join [] sep = []
join (s ∷ []) sep = s
join (s ∷ t ∷ more) sep = s ++ (sep ++ join (t ∷ more) sep)

-- `strings.Cut` on one byte: the text after the separator, empty where it is not there.
unfoldable pub after : Text → ℕ → Text
after [] sep = []
after (c ∷ s) sep = if nat_beq c sep then s else after s sep
