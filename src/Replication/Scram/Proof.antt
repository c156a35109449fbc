-- ===== src/Replication/Scram/Proof.antt =====
-- The client's proof of scram.rs, checked as RFC 5802 has a server check it.
use pg_x.Base.{ℕ, zero, suc, ◌+◌, ◌-◌, ◌≡◌, refl, sym, ap, ◌∙◌, some, [], ◌∷◌, ◌++◌, length, arith}
use pg_x.Text.{Bytes, Text, codes}
use pg_x.Word.{to_be_bytes}
use pg_x.Word.Xor.{bit_xor-twice}
use pg_x.Replication.Scram.{
  Crypto, ScramClient, ClientFinal, xor_bytes, xor_onto, hi_rounds, hi_sha256, final_message,
}

xor_bytes-twice : (a b : Bytes) → length a ≡ length b → xor_bytes (xor_bytes a b) b ≡ a
unfolding xor_bytes
xor_bytes-twice [] [] h = refl
xor_bytes-twice [] (y ∷ b) h = refl
xor_bytes-twice (x ∷ a) [] h = absurd (omega arith)
xor_bytes-twice (x ∷ a) (y ∷ b) h = rw (bit_xor-twice x y, xor_bytes-twice a b (omega arith)) refl

xor_onto-same : (a b : Bytes) → length a ≡ length b → xor_onto a b ≡ xor_bytes a b
unfolding xor_onto xor_bytes
xor_onto-same [] b h = refl
xor_onto-same (x ∷ a) [] h = absurd (omega arith)
xor_onto-same (x ∷ a) (y ∷ b) h = rw (xor_onto-same a b (omega arith)) refl

length-xor_bytes : (a b : Bytes) → length a ≡ length b → length (xor_bytes a b) ≡ length a
unfolding xor_bytes
length-xor_bytes [] b h = refl
length-xor_bytes (x ∷ a) [] h = absurd (omega arith)
length-xor_bytes (x ∷ a) (y ∷ b) h = let e = length-xor_bytes a b (omega arith) in omega arith

-- What the crates document: base64 is decoded again, and an HMAC has 32 bytes.
pub record CryptoRules (k : Crypto) : Type 0 where
  pub decode_rule : (b : Bytes) → k.decode (k.encode b) ≡ some b
  pub hmac_rule : (key msg : Bytes) → length (k.hmac key msg) ≡ 32

-- RFC 5802, section 2.2: `U1` is `HMAC(str, salt + INT(1))`, and each `U` behind it the HMAC of the
-- one before; `Hi` is the XOR of them all. Both are counted from 0 here.
module _ (k : Crypto) (password salt : Bytes) where
  unfoldable pub hi_u : ℕ → Bytes
  hi_u zero = k.hmac password (salt ++ 0 ∷ 0 ∷ 0 ∷ 1 ∷ [])
  hi_u (suc n) = k.hmac password (hi_u n)

  unfoldable pub hi : ℕ → Bytes
  unfolding hi_u xor_bytes
  hi zero = hi_u zero
  hi (suc n) = xor_bytes (hi n) (hi_u (suc n))

  module _ (rules : CryptoRules k) where
    length-hi_u : (n : ℕ) → length (hi_u n) ≡ 32
    unfolding hi_u
    length-hi_u zero = rules.hmac_rule _ _
    length-hi_u (suc n) = rules.hmac_rule _ _

    length-hi : (n : ℕ) → length (hi n) ≡ 32
    unfolding hi
    length-hi zero = length-hi_u zero
    length-hi (suc n) =
        length-xor_bytes (hi n) (hi_u (suc n)) (length-hi n ∙ sym (length-hi_u (suc n)))
        ∙ length-hi n

    hi_rounds-hi : (n m : ℕ) → hi_rounds k n password (hi_u m) (hi m) ≡ hi (n + m)
    unfolding hi_rounds hi_u hi
    hi_rounds-hi zero m = let e : m ≡ 0 + m = omega arith in ap hi e
    hi_rounds-hi (suc n) m =
        let same = xor_onto-same (hi m) (hi_u (suc m)) (length-hi m ∙ sym (length-hi_u (suc m))) in
        let count : n + suc m ≡ suc n + m = omega arith in
        ap (hi_rounds k n password (hi_u (suc m))) same ∙ hi_rounds-hi n (suc m) ∙ ap hi count

    hi_sha256-hi : (iters : ℕ) → hi_sha256 k password salt iters ≡ hi (iters - 1)
    unfolding hi_sha256 hi hi_u to_be_bytes
    hi_sha256-hi iters =
        let count : iters - 1 + 0 ≡ iters - 1 = omega arith in
        hi_rounds-hi (iters - 1) zero ∙ ap hi count

-- `AuthMessage` of the RFC: the client's first message without its header, the server's first
-- message, and the client's final message without the proof.
abbrev pub rfc_auth_message : (client_first_bare server_first wo_proof : Text) → Text
rfc_auth_message client_first_bare server_first wo_proof =
    client_first_bare ++ (codes "," ++ (server_first ++ (codes "," ++ wo_proof)))

-- The check of a server that keeps `H(HMAC(SaltedPassword, "Client Key"))`:
-- `H(ClientProof XOR HMAC(StoredKey, AuthMessage))` is it again.
unfoldable pub ServerAccepts : (k : Crypto) (salted_password auth_message proof : Bytes) → Type 0
unfolding xor_bytes
ServerAccepts k salted_password auth_message proof =
    let stored_key = k.digest (k.hmac salted_password (codes "Client Key")) in
    k.digest (xor_bytes proof (k.hmac stored_key auth_message)) ≡ stored_key

-- What the RFC asks of a final message for `iters` iterations (none counts as one).
abbrev pub FollowsRfc :
    (k : Crypto) (client : ScramClient) (password server_first rnonce : Text) (salt : Bytes)
    (iters : ℕ)
    → ClientFinal
    → Type 0
FollowsRfc k client password server_first rnonce salt iters m =
    let wo_proof = codes "c=biws,r=" ++ rnonce in
    let auth_message = rfc_auth_message client.client_first_bare server_first wo_proof in
    let salted_password = hi k password salt (iters - 1) in
    (m.auth_message ≡ auth_message)
    × (m.salted_password ≡ salted_password)
    × ((p : Text) × (proof : Bytes) × (m.client_final ≡ wo_proof ++ (codes ",p=" ++ p))
        × (k.decode p ≡ some proof)
        × ServerAccepts k salted_password auth_message proof)

-- The client's final message is that of RFC 5802. What is kept to check the server by is the RFC's
-- AuthMessage of the three messages and the RFC's `Hi` of password, salt and iterations. The message
-- that is sent is the one without the proof, which ends that AuthMessage, with a proof behind it that
-- decodes to one that a server with this AuthMessage and the stored key of that `Hi` accepts.
pub final_message-FollowsRfc :
    (k : Crypto) (client : ScramClient) (password server_first rnonce : Text) (salt : Bytes)
    (iters : ℕ)
    → CryptoRules k
    → FollowsRfc k client password server_first rnonce salt iters
        (final_message k client password server_first rnonce salt iters)
unfolding final_message ServerAccepts
final_message-FollowsRfc k client password server_first rnonce salt iters rules =
    let m = final_message k client password server_first rnonce salt iters in
    let salted = hi_sha256-hi k password salt rules iters in
    let key = k.hmac (hi k password salt (iters - 1)) (codes "Client Key") in
    let sig = k.hmac (k.digest key) m.auth_message in
    let same : length key ≡ length sig = rules.hmac_rule _ _ ∙ sym (rules.hmac_rule _ _) in
    let proof = xor_bytes key sig in
    (
      refl,
      salted,
      (
        k.encode proof,
        proof,
        rw salted refl,
        rules.decode_rule proof,
        ap k.digest (xor_bytes-twice key sig same),
      ),
    )
