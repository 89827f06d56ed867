-- ===== src/Domain/Text.antt =====
-- What the program uses of Go's package strings, on native texts.
use Prim.Native.Char.{code}
use Prim.Native.String.{String, [], ◌∷◌}
use paisa.Prelude.{ℕ, ◌≡◌, refl, Bool, ◌&&◌, ◌||◌, ◌==◌, leb, eqb, if◌then◌else◌}

-- `unicode.IsSpace`.
unfoldable pub is_space : ℕ → Bool
is_space c =
    (leb 9 c && leb c 13)
    || eqb c 32
    || eqb c 0x85
    || eqb c 0xa0
    || eqb c 0x1680
    || (leb 0x2000 c && leb c 0x200a)
    || eqb c 0x2028
    || eqb c 0x2029
    || eqb c 0x202f
    || eqb c 0x205f
    || eqb c 0x3000

trim_left : String → String
unfolding is_space
trim_left [] = []
trim_left (c ∷ s) = let rest = trim_left s in if is_space (code c) then rest else c ∷ s

trim_right : String → String
unfolding is_space
trim_right [] = []
trim_right (c ∷ s) =
    let rest = trim_right s in if rest == "" && is_space (code c) then [] else c ∷ rest

-- `strings.TrimSpace`.
unfoldable pub trim_space : String → String
unfolding trim_left trim_right
trim_space s = trim_right (trim_left s)

-- `normalizeDefault` of accts-api/application/utils.go and of the repository's helpers.go.
unfoldable pub normalize_default : String → String → String
unfolding trim_space
normalize_default value fallback =
    let trimmed = trim_space value in if trimmed == "" then fallback else trimmed

trim_space_test : trim_space "  a b\n" ≡ "a b"
unfolding trim_space
trim_space_test = refl

normalize_default_test : normalize_default " \t" "USD" ≡ "USD"
unfolding normalize_default
normalize_default_test = refl
