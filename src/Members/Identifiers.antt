-- ===== src/Members/Identifiers.antt =====
-- The identifiers of customers in accts-api/domain/helpers.go, normalized and hashed.
use Prim.Native.Char.{code}
use Prim.Native.String.{String, [], ◌∷◌, ◌++◌ as concat, len}
use paisa.Prelude.{◌==◌, leb, eqb, Bool, false, ◌&&◌, ◌||◌, if◌then◌else◌}
use paisa.Domain.Text.{trim_space}

-- What the code takes from Go's library: strings.ToLower, and SHA-256 in hexadecimal.
pub record Hashing : Type 0 where
  pub to_lower : String → String
  pub sha256_hex : String → String

unfoldable digits_of : String → String
digits_of [] = []
digits_of (c ∷ s) =
    let rest = digits_of s in if leb 48 (code c) && leb (code c) 57 then c ∷ rest else rest

-- `strings.HasPrefix(digits, "1")`
abbrev starts_with_one : String → Bool
starts_with_one [] = false
starts_with_one (c ∷ s) = eqb (code c) 49

unfoldable phone_of : String → String
phone_of digits =
    if eqb (len digits) 10
    then concat "+1" digits
    else if eqb (len digits) 11 && starts_with_one digits
    then concat "+" digits
    else digits

-- `NormalizeIdentifierValue`
unfoldable pub normalize_identifier_value : Hashing → String → String → String
unfolding digits_of phone_of
normalize_identifier_value hashing identifier_type value =
    let type = hashing.to_lower (trim_space identifier_type) in
    let text = trim_space value in
    if type == "phone"
    then phone_of (digits_of text)
    else if type == "qr_code" || type == "square_customer_id" || type == "toast_guest_id"
    then text
    else hashing.to_lower text

-- `HashIdentifierValue`
unfoldable pub hash_identifier_value : Hashing → String → String
hash_identifier_value hashing value = hashing.sha256_hex (trim_space (hashing.to_lower value))

-- `HashIdentifier`
unfoldable pub hash_identifier : Hashing → String → String → String
unfolding normalize_identifier_value hash_identifier_value
hash_identifier hashing identifier_type value =
    hash_identifier_value hashing (normalize_identifier_value hashing identifier_type value)
