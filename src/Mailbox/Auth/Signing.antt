-- ===== src/Mailbox/Auth/Signing.antt =====
-- The signed bytes determine what is signed.
use skattr.Base.{ℕ, ◌≡◌, [], ◌∷◌, ◌++◌, Bytes, length, arith}
use skattr.Mailbox.Auth.{signing_input, auth_domain}

append_injective :
    (xs ys us vs : Bytes) → length xs ≡ length ys → xs ++ us ≡ ys ++ vs → (xs ≡ ys) × (us ≡ vs)
append_injective [] [] us vs l e = ground arith
append_injective [] (y ∷ ys) us vs l e = absurd (omega arith)
append_injective (x ∷ xs) [] us vs l e = absurd (omega arith)
append_injective (x ∷ xs) (y ∷ ys) us vs l e =
    ground (arith, append_injective xs ys us vs (omega arith) (ground arith))

-- For nonces of one length, such as the 32 bytes of the protocol, two signed strings are equal only
-- if nonce, operation and payload digest are: a signature for one operation is none for another.
pub signing_input_injective :
    (n m : Bytes) (op op' : ℕ) (d d' : Bytes)
    → length n ≡ length m
    → signing_input n op d ≡ signing_input m op' d'
    → (n ≡ m) × (op ≡ op') × (d ≡ d')
unfolding signing_input
signing_input_injective n m op op' d d' l e =
    let (_, rest) =
      append_injective auth_domain auth_domain (n ++ (op ∷ d)) (m ++ (op' ∷ d')) (omega arith) e in
    let (same_nonce, tail) = append_injective n m (op ∷ d) (op' ∷ d') l rest in
    (same_nonce, ground arith, ground arith)
