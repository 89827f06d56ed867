-- ===== src/Db/Char.antt =====
-- The columns of type CHAR(n) of db/schema.sql.
use Prim.Native.Char.{code}
use Prim.Native.String.{String, [], ◌∷◌, ◌++◌ as concat}
use paisa.Prelude.{ℕ, zero, suc, ◌≡◌, refl, Bool, true, false, eqb, ◌&&◌}

-- Whether a text fits `CHAR(n)`, where only blanks are cut off.
abbrev pub char_fits : ℕ → String → Bool
char_fits zero [] = true
char_fits zero (c ∷ s) = let rest = char_fits zero s in eqb (code c) 32 && rest
char_fits (suc n) [] = true
char_fits (suc n) (c ∷ s) = char_fits n s

-- The text that is stored: blanks fill it up.
abbrev pub to_char : ℕ → String → String
to_char zero s = ""
to_char (suc n) [] = let rest = to_char n [] in concat " " rest
to_char (suc n) (c ∷ s) = let rest = to_char n s in c ∷ rest

currency_test : to_char 3 "US" ≡ "US "
currency_test = refl

long_currency_test : char_fits 3 "EURO" ≡ false
long_currency_test = refl
