-- ===== src/Exchange/Utils/Subaccount.antt =====
-- The subaccount of a principal.
use hunter_fi.Base.{ℕ, zero, suc, ◌≤◌, ◌≡◌, refl, sym, ap, ◌∙◌, List, [], ◌∷◌, length, take, arith}
use hunter_fi.Exchange.Utils.{copy_bytes, principal_to_subaccount}

-- Reads a subaccount back: as many bytes as the first one says.
abbrev pub subaccount_bytes : List ℕ → List ℕ
subaccount_bytes [] = []
subaccount_bytes (n ∷ bytes) = take n bytes

length-copy_bytes : (room : ℕ) (bytes : List ℕ) → length (copy_bytes room bytes) ≡ room
unfolding copy_bytes
length-copy_bytes zero bytes = refl
length-copy_bytes (suc room) [] = omega (arith, length-copy_bytes room [])
length-copy_bytes (suc room) (b ∷ bytes) = omega (arith, length-copy_bytes room bytes)

take-copy_bytes :
    (room : ℕ) (bytes : List ℕ)
    → length bytes ≤ room
    → take (length bytes) (copy_bytes room bytes) ≡ bytes
unfolding copy_bytes
take-copy_bytes room [] h = refl
take-copy_bytes zero (b ∷ bytes) h = absurd (omega arith)
take-copy_bytes (suc room) (b ∷ bytes) h =
    ap (λ l. b ∷ l) (take-copy_bytes room bytes (omega arith))

-- A subaccount has 32 bytes.
pub length-principal_to_subaccount : (bytes : List ℕ) → length (principal_to_subaccount bytes) ≡ 32
unfolding principal_to_subaccount
length-principal_to_subaccount bytes = omega (arith, length-copy_bytes 31 bytes)

-- A principal of at most 31 bytes is read back from its subaccount.
pub principal_to_subaccount-round_trip :
    (bytes : List ℕ) → length bytes ≤ 31 → subaccount_bytes (principal_to_subaccount bytes) ≡ bytes
unfolding principal_to_subaccount
principal_to_subaccount-round_trip bytes h =
    ap (λ n. take n (copy_bytes 31 bytes)) (omega arith) ∙ take-copy_bytes 31 bytes h

-- Different principals of at most 31 bytes have different subaccounts.
pub principal_to_subaccount-injective :
    (a b : List ℕ)
    → length a ≤ 31
    → length b ≤ 31
    → principal_to_subaccount a ≡ principal_to_subaccount b
    → a ≡ b
principal_to_subaccount-injective a b ha hb e =
    sym (principal_to_subaccount-round_trip a ha)
    ∙ ap subaccount_bytes e
    ∙ principal_to_subaccount-round_trip b hb
